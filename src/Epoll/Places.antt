-- ===== src/Epoll/Places.antt =====
-- Where the channels of clients and of connectors stand, and what changing one of them changes.
use pluto_server.Prelude.{
  ℕ, ◌≡◌, ◌⊎◌, inl, inr, sym, ap, ◌∙◌, arith, Bool, List, [], ◌∷◌, All, some, some_inj, Bool-cases,
  ◌==◌, if◌then◌else◌,
}
use mathlib.Core.Path.{subst}
use pluto_server.Prelude.Dict
use pluto_server.Channel.{Channel, Connector}
use pluto_server.Epoll.{find_connector, userful_connector, update_connector}

-- What is found after a change was there before, or is the new one.
pub found-update :
    (k j : ℕ) (v w : Channel) (m : List (ℕ × Channel))
    → Dict.find j (Dict.update k v m) ≡ some w
    → (v ≡ w) ⊎ (Dict.find j m ≡ some w)
unfolding Dict.find Dict.update
found-update k j v w [] e = inr e
found-update k j v w ((i, x) ∷ m) e = ground (arith, found-update k j v w m)

pub found-insert :
    (k j : ℕ) (v w : Channel) (m : List (ℕ × Channel))
    → Dict.find j (Dict.insert k v m) ≡ some w
    → (v ≡ w) ⊎ (Dict.find j m ≡ some w)
unfolding Dict.find Dict.insert
found-insert k j v w [] e = ground arith
found-insert k j v w ((i, x) ∷ m) e = ground (arith, found-insert k j v w m)

pub found-erase :
    (k j : ℕ) (w : Channel) (m : List (ℕ × Channel))
    → Dict.find j (Dict.erase k m) ≡ some w
    → Dict.find j m ≡ some w
unfolding Dict.find Dict.erase
found-erase k j w m e = ground (arith, Dict.find-erase k j m)

pub All-update_connector :
    (P : Channel → Type 0) (test : Connector → Bool) (change : Connector → Connector)
    (cs : List Connector)
    → ((k : Connector) → P k.channel → P (change k).channel)
    → All (λ (k : Connector). P k.channel) cs
    → All (λ (k : Connector). P k.channel) (update_connector test change cs)
unfolding update_connector
All-update_connector P test change [] keeps h = tt
All-update_connector P test change (c ∷ cs) keeps h = elim (Bool-cases (test c)) [
  | inl e ↦ rw e (keeps c h.0, h.1)
  | inr e ↦ rw e (h.0, All-update_connector P test change cs keeps h.1)
]

pub found-All :
    (P : Channel → Type 0) (fd : ℕ) (k : Connector) (cs : List Connector)
    → find_connector fd cs ≡ some k
    → All (λ (k : Connector). P k.channel) cs
    → P k.channel
unfolding find_connector
found-All P fd k [] e h = cc
found-All P fd k (c ∷ cs) e h = elim (Bool-cases (c.channel.fd == fd)) [
  | inl at ↦
      subst (λ (x : Connector). P x.channel)
        (some_inj (sym (ap (λ (b : Bool). if b then some c else find_connector fd cs) at) ∙ e)) h.0
  | inr on ↦
      found-All P fd k cs
        (sym (ap (λ (b : Bool). if b then some c else find_connector fd cs) on) ∙ e) h.1
]

pub userful-All :
    (P : Channel → Type 0) (k : Connector) (cs : List Connector)
    → userful_connector cs ≡ some k
    → All (λ (k : Connector). P k.channel) cs
    → P k.channel
unfolding userful_connector
userful-All P k [] e h = cc
userful-All P k (c ∷ cs) e h = elim (Bool-cases c.success) [
  | inl at ↦
      subst (λ (x : Connector). P x.channel)
        (some_inj (sym (ap (λ (b : Bool). if b then some c else userful_connector cs) at) ∙ e)) h.0
  | inr on ↦
      userful-All P k cs
        (sym (ap (λ (b : Bool). if b then some c else userful_connector cs) on) ∙ e) h.1
]

pub All-meet :
    (P Q R : Channel → Type 0) (cs : List Connector)
    → ((c : Channel) → P c → Q c → R c)
    → All (λ (k : Connector). P k.channel) cs
    → All (λ (k : Connector). Q k.channel) cs
    → All (λ (k : Connector). R k.channel) cs
All-meet P Q R [] f h g = tt
All-meet P Q R (c ∷ cs) f h g = (f c.channel h.0 g.0, All-meet P Q R cs f h.1 g.1)
