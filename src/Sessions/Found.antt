-- ===== src/Sessions/Found.antt =====
-- The items that `SessionPipeline.run` of backend/summarizers/session.py has found: what is stored stays.
use Prim.Native.Char.{Char}
use knowledgebase_storage.Common.{
  ℕ, String, ◌≡◌, refl, ◌∙◌, subst, inl, inr, Bool, true, false, not, ◌&&◌, ◌||◌, List, [], ◌∷◌,
  map, arith, eqb, Bool-cases, is_some,
}
use knowledgebase_storage.Sessions.{SessionItem, find_item, store_item}
use knowledgebase_storage.Sessions.Resume.{find-store_self, find-store_other}
use knowledgebase_storage.Sessions.Pipeline.{
  in_group, all_found, accept_one, accept_each, accept_alone, quoted_links,
}

-- What is found stays as it is.
abbrev pub Keeps : List SessionItem → List SessionItem → Type 0
Keeps before after =
    (number : ℕ)
    → is_some (find_item number before) ≡ true
    → find_item number after ≡ find_item number before

pub Keeps-trans : (a b c : List SessionItem) → Keeps a b → Keeps b c → Keeps a c
Keeps-trans a b c first second number h = second number (rw (first number h) h) ∙ first number h

store_new-Keeps :
    (i : SessionItem) (found : List SessionItem)
    → is_some (find_item i.number found) ≡ false
    → Keeps found (store_item i found)
store_new-Keeps i found new number h = elim (Bool-cases (eqb i.number number)) [
  | inl e ↦ let same : i.number ≡ number = ground (arith, e) in absurd (cc (new, h, same))
  | inr e ↦ find-store_other number i found e
]

accept_one-Keeps :
    (group : List ℕ) (i : SessionItem) (found : List SessionItem)
    → Keeps found (accept_one group i found)
unfolding accept_one
accept_one-Keeps group i found =
    elim (Bool-cases (in_group group i.number && not (is_some (find_item i.number found)))) [
      | inl e ↦ rw e (store_new-Keeps i found (ground (arith, e)))
      | inr e ↦ rw e (λ number h. refl)
    ]

pub accept_each-Keeps :
    (group : List ℕ) (is found : List SessionItem) → Keeps found (accept_each group is found)
unfolding accept_each
accept_each-Keeps group [] found = λ number h. refl
accept_each-Keeps group (i ∷ is) found =
    Keeps-trans found (accept_one group i found) (accept_each group is (accept_one group i found))
      (accept_one-Keeps group i found) (accept_each-Keeps group is (accept_one group i found))

-- items of one number leave the others
accept_alone-other :
    (number other : ℕ) (is found : List SessionItem)
    → eqb number other ≡ false
    → find_item other (accept_alone number is found) ≡ find_item other found
unfolding accept_alone
accept_alone-other number other [] found h = refl
accept_alone-other number other (i ∷ is) found h = elim (Bool-cases (eqb i.number number)) [
  | inl e ↦ rw e (
      accept_alone-other number other is (store_item i found) h
      ∙ find-store_other other i found (ground (arith, e, h)))
  | inr e ↦ rw e (accept_alone-other number other is found h)
]

pub accept_alone-Keeps :
    (number : ℕ) (is found : List SessionItem)
    → is_some (find_item number found) ≡ false
    → Keeps found (accept_alone number is found)
accept_alone-Keeps number is found new other h = elim (Bool-cases (eqb number other)) [
  | inl e ↦ let same : number ≡ other = ground (arith, e) in absurd (cc (new, h, same))
  | inr e ↦ accept_alone-other number other is found e
]

-- One of the items has the number.
abbrev pub has_number : ℕ → List SessionItem → Bool
has_number number [] = false
has_number number (i ∷ is) = eqb i.number number || has_number number is

stays_found :
    (number : ℕ) (is found : List SessionItem)
    → is_some (find_item number found) ≡ true
    → is_some (find_item number (accept_alone number is found)) ≡ true
unfolding accept_alone
stays_found number [] found h = h
stays_found number (i ∷ is) found h = elim (Bool-cases (eqb i.number number)) [
  | inl e ↦
      let same : i.number ≡ number = ground (arith, e) in
      rw e (
        stays_found number is (store_item i found) (
          subst (λ n. is_some (find_item n (store_item i found)) ≡ true) same
            (rw (find-store_self i found) refl)))
  | inr e ↦ rw e (stays_found number is found h)
]

pub accept_alone-found :
    (number : ℕ) (is found : List SessionItem)
    → has_number number is ≡ true
    → is_some (find_item number (accept_alone number is found)) ≡ true
unfolding accept_alone
accept_alone-found number [] found h = absurd (cc)
accept_alone-found number (i ∷ is) found h = elim (Bool-cases (eqb i.number number)) [
  | inl e ↦
      let same : i.number ≡ number = ground (arith, e) in
      rw e (
        stays_found number is (store_item i found) (
          subst (λ n. is_some (find_item n (store_item i found)) ≡ true) same
            (rw (find-store_self i found) refl)))
  | inr e ↦ rw e (accept_alone-found number is found (rw e at h))
]

pub has_number-quoted :
    (is_space : Char → Bool) (chunk : String) (number : ℕ) (is : List SessionItem)
    → has_number number (map (quoted_links is_space chunk) is) ≡ has_number number is
unfolding quoted_links
has_number-quoted is_space chunk number [] = refl
has_number-quoted is_space chunk number (i ∷ is) =
    rw (has_number-quoted is_space chunk number is) refl

pub all_found-Keeps :
    (group : List ℕ) (a b : List SessionItem)
    → Keeps a b
    → all_found group a ≡ true
    → all_found group b ≡ true
all_found-Keeps [] a b k h = refl
all_found-Keeps (n ∷ ns) a b k h =
    rw (k n (ground (arith, h))) (ground (arith, h, all_found-Keeps ns a b k))
