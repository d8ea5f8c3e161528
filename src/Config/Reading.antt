-- ===== src/Config/Reading.antt =====
-- What a server reads of its configuration.
use pluto_server.Prelude.{
  ℕ, ◌%◌, ◌^◌, ◌<◌, ◌≡◌, refl, ap, ◌∙◌, arith, true, List, [], ◌∷◌, ◌++◌, Option, none, some,
  length, take_all, drop_all, append-nil,
}
use pluto_server.Package.{c_string}
use pluto_server.Package.Body.{IsText, c_string-IsText}
use pluto_server.Json.{CJson, from_text}
use pluto_server.Config.{
  load_file, fread_into, get_all_config, helper_of, ConfigReader, size_of_int,
}

c_string_unended : (text : List ℕ) → IsText text → c_string text ≡ none
unfolding c_string
c_string_unended [] h = refl
c_string_unended (x ∷ text) h = ground (arith, c_string_unended text h.1)

size_of_int_small : (n : ℕ) → n < 2 ^ 31 → size_of_int (n % 2 ^ 32) ≡ n
size_of_int_small n h = ground arith

fread_into_all :
    (block content : List ℕ)
    → length block ≡ length content
    → fread_into block (length content) content ≡ content
unfolding fread_into
fread_into_all block content e =
    rw
      (
        take_all (length content) content (omega arith),
        drop_all (length content) block (omega arith),
        append-nil content,
      )
      refl

with_block : (content : List ℕ) → ℕ → Option (List ℕ) → ConfigReader
with_block content size none = record { load_success = none; buffer = none }
with_block content size (some block) = record {
  load_success = some true;
  buffer = some (fread_into block size content);
}

module _ (content block : List ℕ) (malloc : ℕ → Option (List ℕ)) (small : length content < 2 ^ 31)
    (fits : length block ≡ length content) (given : malloc (length content) ≡ some block) where
  loaded :
      load_file (some content) malloc ≡ record { load_success = some true; buffer = some content }
  unfolding load_file with_block
  loaded =
      ap (λ size. with_block content size (malloc size)) (size_of_int_small (length content) small)
      ∙ ap (with_block content (length content)) given
      ∙ ap (λ bytes. record { load_success = some true; buffer = some bytes })
          (fread_into_all block content fits)

  -- A file of less than 2 GB, and a block of exactly its size for it. Where the file holds no NUL, as a text has none, the
  -- helper is made of bytes behind the end of the block. Where it has one, the helper's text is what stands before it.
  pub helper_of-load_file :
      (c : CJson)
      → (IsText content → helper_of c (get_all_config (load_file (some content) malloc)) ≡ none)
        × ((text more : List ℕ)
            → content ≡ text ++ (0 ∷ more)
            → IsText text
            → helper_of c (get_all_config (load_file (some content) malloc))
              ≡ some (from_text c text))
  unfolding helper_of
  helper_of-load_file c = (
    λ h. rw (loaded, c_string_unended content h) refl,
    λ text more e h. rw (loaded, e, c_string-IsText text more h) refl,
  )
