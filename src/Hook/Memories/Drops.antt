-- ===== src/Hook/Memories/Drops.antt =====
-- The second loop of `pull_memories` of hooks/kbstore_hook.py, over the files that the server does not list.
use knowledgebase_storage.Common.{
  String, subst, ◌≡◌, refl, ◌∙◌, inl, inr, false, ◌&&◌, none, some, List, [], ◌∷◌, arith, ◌==◌,
  eq_iff, holds_text, if◌then◌else◌, Bool-cases,
}
use knowledgebase_storage.Common.Dict.{lookup, lookup-remove}
use knowledgebase_storage.Hook.Memories.{Pulled, drop_one, drop_each}
use knowledgebase_storage.Hook.Memories.Pull.{DistinctNames, apart}

module _ (hash : String → String) where
  pub drop_one-file :
      (n name current : String) (s : Pulled)
      → lookup n (drop_one hash name current s).files ≡ (
          if (name == n) && holds_text (lookup n s.synced) (hash current)
          then none
          else lookup n s.files)
  unfolding drop_one
  drop_one-file n name current s = ground (arith, eq_iff name n, lookup-remove n name s.files)

  drop_one-other :
      (n name current : String) (s : Pulled)
      → (name == n) ≡ false
      → lookup n (drop_one hash name current s).synced ≡ lookup n s.synced
  unfolding drop_one
  drop_one-other n name current s e = ground (arith, e, lookup-remove n name s.synced)

  pub drop_each-none :
      (n : String) (items : List (String × String)) (s : Pulled)
      → lookup n items ≡ none
      → lookup n (drop_each hash items s).files ≡ lookup n s.files
  unfolding drop_each
  drop_each-none n [] s h = refl
  drop_each-none n ((name, current) ∷ rest) s h =
      let (e, later) = apart n name current rest h in
      drop_each-none n rest (drop_one hash name current s) later
      ∙ drop_one-file n name current s
      ∙ rw e refl

  pub drop_each-some :
      (n here : String) (items : List (String × String)) (s : Pulled)
      → DistinctNames items
      → lookup n items ≡ some here
      → lookup n (drop_each hash items s).files
        ≡ (if holds_text (lookup n s.synced) (hash here) then none else lookup n s.files)
  unfolding drop_each lookup
  drop_each-some n here [] s d h = absurd (cc)
  drop_each-some n here ((name, current) ∷ rest) s d h = elim (Bool-cases (name == n)) [
    | inl e ↦
        let same : name ≡ n = (eq_iff name n).0 e in
        let found : some current ≡ some here = rw (e, lookup) at h in
        let text : current ≡ here = cc in
        let none_left : lookup n rest ≡ none = subst (λ m. lookup m rest ≡ none) same d.0 in
        drop_each-none n rest (drop_one hash name current s) none_left
        ∙ drop_one-file n name current s
        ∙ rw (e, text) refl
    | inr e ↦
        drop_each-some n here rest (drop_one hash name current s) d.1 (rw (e, lookup) at h)
        ∙ rw (drop_one-other n name current s e, drop_one-file n name current s, e) refl
  ]
