-- ===== src/Projects/Listed.antt =====
-- What a merge of backend/services/projects.py leaves of the merged project among the entries.
use knowledgebase_storage.Common.{
  String, ◌≡◌, refl, sym, ap, ◌∙◌, subst, inl, inr, true, false, not, Option, none, some, List,
  Memᴰ, arith, ◌==◌, eq_iff, eqb, Bool-cases, Option-cases, All,
}
use knowledgebase_storage.Common.Table.Laws.{
  All-put, All-first, All-members, All-get, first-none, first_passes,
}
use knowledgebase_storage.Common.Table.Members.{mem-keep_back}
use knowledgebase_storage.Common.Table.{delete_where}
use knowledgebase_storage.Entries.{
  ProjectEntry, carry_entry, carry_found, carried_entry, find_entry, save_entry, merged_sources,
}
use knowledgebase_storage.Common.Table.Distinct.{IsDistinct, distinct_eq, All-put_distinct}
use knowledgebase_storage.Projects.Jobs.{Other}

-- No two entries have one identifier, and no two have one slug, as the table's constraints have it.
pub record AreUnique (entries : List ProjectEntry) : Type 0 where
  pub ids : IsDistinct (λ a b. eqb a.id b.id) entries
  pub slugs : IsDistinct (λ a b. a.slug == b.slug) entries

mem-find_entry :
    (source : String) (entries : List ProjectEntry) (entry : ProjectEntry)
    → find_entry source entries ≡ some entry
    → Memᴰ entry entries
unfolding find_entry
mem-find_entry source entries entry found =
    All-first (λ e. Memᴰ e entries) _ entries (All-members (λ e. Memᴰ e entries) entries (λ e m. m))
      found

find_entry-slug :
    (source : String) (entries : List ProjectEntry) (entry : ProjectEntry)
    → find_entry source entries ≡ some entry
    → entry.slug ≡ source
unfolding find_entry
find_entry-slug source entries entry found =
    (eq_iff entry.slug source).0 (first_passes (λ e. e.slug == source) entries found)

same_id_refl : (a : ProjectEntry) → eqb a.id a.id ≡ true
same_id_refl a = ground arith

same_id_sym : (a b : ProjectEntry) → eqb a.id b.id ≡ true → eqb b.id a.id ≡ true
same_id_sym a b h = ground arith

same_slug_sym : (a b : ProjectEntry) → (a.slug == b.slug) ≡ true → (b.slug == a.slug) ≡ true
same_slug_sym a b h = ground (arith, eq_iff a.slug b.slug, eq_iff b.slug a.slug)

-- the entry of a slug is the only one of that slug
only_entry :
    (source : String) (entries : List ProjectEntry) (entry y : ProjectEntry)
    → AreUnique entries
    → find_entry source entries ≡ some entry
    → Memᴰ y entries
    → eqb entry.id y.id ≡ false
    → Other source y.slug
only_entry source entries entry y unique found m apart = elim (Bool-cases (y.slug == source)) [
  | inr o ↦ o
  | inl e ↦
      let slugs : (entry.slug == y.slug) ≡ true =
        (eq_iff entry.slug y.slug).1
          (find_entry-slug source entries entry found ∙ sym ((eq_iff y.slug source).0 e)) in
      let same : entry ≡ y =
        distinct_eq (λ a b. a.slug == b.slug) same_slug_sym entries entry y unique.slugs
          (mem-find_entry source entries entry found) m slugs in
      absurd (cc (same_id_refl entry, ap (λ (z : ProjectEntry). eqb entry.id z.id) same, apart))
]

carried_entry-Other :
    (source into : String) (entries : List ProjectEntry) (entry : ProjectEntry)
    (holder : Option ProjectEntry)
    → Other source into
    → AreUnique entries
    → find_entry source entries ≡ some entry
    → find_entry into entries ≡ holder
    → All (λ e. Other source e.slug) (carried_entry into entry holder entries)
unfolding carried_entry save_entry delete_where
carried_entry-Other source into entries entry none o unique found free =
    All-put_distinct (λ a b. eqb a.id b.id) (λ e. Other source e.slug) same_id_refl same_id_sym
      (record entry { slug = into }) entry entries (λ y. refl) unique.ids
      (mem-find_entry source entries entry found) o
      (λ y m apart. only_entry source entries entry y unique found m apart)
carried_entry-Other source into entries entry (some holder) o unique found held =
    let merged : ProjectEntry = record holder {
      sources = merged_sources holder.sources entry.sources;
    } in
    let all =
      All-put (λ e. eqb entry.id e.id ≡ false → Other source e.slug) (λ a b. eqb a.id b.id) merged
        entries (λ _. subst (Other source) (sym (find_entry-slug into entries holder held)) o)
        (All-members _ entries
          (λ y m apart. only_entry source entries entry y unique found m apart)) in
    All-members (λ e. Other source e.slug) _
      (λ y m.
        let (there, t) = mem-keep_back (λ e. not (eqb e.id entry.id)) y _ m in
        All-get (λ e. eqb entry.id e.id ≡ false → Other source e.slug) _ y all there
          (ground (arith, t)))

pub carry_entry-Other :
    (source into : String) (entries : List ProjectEntry)
    → Other source into
    → AreUnique entries
    → All (λ e. Other source e.slug) (carry_entry source into entries)
unfolding carry_entry carry_found
carry_entry-Other source into entries o unique = elim (Option-cases (find_entry source entries)) [
  | inl e ↦ rw e (unfold find_entry in first-none (λ e. e.slug == source) entries e)
  | inr (entry, e) ↦
      rw e (carried_entry-Other source into entries entry (find_entry into entries) o unique e refl)
]
