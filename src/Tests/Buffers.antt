-- ===== src/Tests/Buffers.antt =====
-- buffer.cpp, util.cpp and stream.cpp at concrete inputs.
use pluto_server.Prelude.{◌≡◌, ◌↔◌, refl, arith, List, [], ◌∷◌, ◌++◌, none, some, length, All}
use pluto_server.Prelude.Text.{codes}
use pluto_server.Prelude.Memory.{plain_heap, plain_heap-IsAllocator}
use pluto_server.Util.{min_pow, split, split_from, one_of, double_while, lt_wf}
use pluto_server.Util.Split.{join, IsFree, split_lem}
use pluto_server.Buffer.{empty, write}
use pluto_server.Buffer.Extend.{empty-IsValid}
use pluto_server.Buffer.Queue.{write_overruns}
use pluto_server.Buffer.Refine.{Op, put, get, run, run_queue, view, run_refines}
use pluto_server.Stream.{bytes32, read_uint32}
use pluto_server.Stream.Integers.{IsPlain32, read_uint32-bytes32}
use native.Mathlib.Decide.{dec_lt}

min_pow_runs : (min_pow 0 ≡ 0) × (min_pow 1024 ≡ 1024) × (min_pow 1025 ≡ 2048)
unfolding min_pow double_while lt_wf dec_lt
min_pow_runs = (refl, refl, refl)

split_runs :
    (split (codes "10,2,") (codes ",") ≡ codes "10" ∷ (codes "2" ∷ ([] ∷ [])))
    × (split [] (codes ",") ≡ [] ∷ [])
unfolding split split_from one_of
split_runs = (refl, refl)

split_lem_example :
    (join 44 (split (codes "7,8") (44 ∷ [])) ≡ codes "7,8")
    × All (IsFree 44) (split (codes "7,8") (44 ∷ []))
    × (length (split (codes "7,8") (44 ∷ [])) ≡ 2)
split_lem_example = split_lem 44 (codes "7,8")

write_overruns_example : write plain_heap empty (some (codes "abc")) 4097 ≡ none
write_overruns_example =
    write_overruns plain_heap empty (codes "abc") 4097 empty-IsValid (omega arith) (omega arith)

-- Two writes, then two bytes into a block of four, and more than are left into NULL.
abbrev calls_made : List Op
calls_made =
    put (codes "abc") 3 ∷ (put (codes "defg") 2 ∷ (get (some (codes "----")) 2 ∷ (get none 9 ∷ [])))

run_refines_example : view (run plain_heap empty calls_made) ≡ run_queue [] calls_made
run_refines_example =
    run_refines plain_heap-IsAllocator calls_made empty empty-IsValid
      (omega arith, (omega arith, (tt, (tt, tt))))

read_uint32-bytes32_example : (read_uint32 (bytes32 300 ++ (7 ∷ [])) ≡ some 300) ↔ IsPlain32 300
read_uint32-bytes32_example = read_uint32-bytes32 300 (7 ∷ []) (omega arith)
