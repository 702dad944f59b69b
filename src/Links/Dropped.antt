-- ===== src/Links/Dropped.antt =====
-- What is left of a table of links whose rows are deleted.
use knowledgebase_storage.Common.{
  ◌≡◌, inl, inr, Bool, true, not, List, [], ◌∷◌, Memᴰ, Bool-cases, All-keep, keep,
}
use knowledgebase_storage.Common.Table.{delete_where}
use knowledgebase_storage.Common.Table.Laws.{All-delete_where}
use knowledgebase_storage.Links.{ProjectLink, collect}
use knowledgebase_storage.Links.Graph.{Acyclic-Includes}
use knowledgebase_storage.Links.Pairs.{IsTidy, apart}
use knowledgebase_storage.Links.Hierarchy.{
  IsHierarchy, is_edge, mem-collect, collect-Includes, All-of_Memᴰ,
}

pub keep-IsTidy :
    (test : ProjectLink → Bool) (links : List ProjectLink) → IsTidy links → IsTidy (keep test links)
unfolding keep
keep-IsTidy test [] h = tt
keep-IsTidy test (l ∷ ls) h = elim (Bool-cases (test l)) [
  | inl e ↦ rw e (All-keep (λ m. apart l m ≡ true) test ls h.0, keep-IsTidy test ls h.1)
  | inr e ↦ rw e (keep-IsTidy test ls h.1)
]

pub delete_where-IsTidy :
    (test : ProjectLink → Bool) (links : List ProjectLink)
    → IsTidy links
    → IsTidy (delete_where test links)
unfolding delete_where
delete_where-IsTidy test links h = keep-IsTidy (λ l. not (test l)) links h

-- rows are deleted
pub delete_where-IsHierarchy :
    (test : ProjectLink → Bool) (links : List ProjectLink)
    → IsHierarchy links
    → IsHierarchy (delete_where test links)
delete_where-IsHierarchy test links h = record {
  tidy = delete_where-IsTidy test links h.tidy;
  acyclic =
      Acyclic-Includes (collect is_edge (delete_where test links)) (collect is_edge links)
        (collect-Includes is_edge (delete_where test links) (collect is_edge links) (
          All-delete_where
            (λ m. is_edge m ≡ true → Memᴰ (m.source, m.target) (collect is_edge links)) test links
            (All-of_Memᴰ links (λ m n. mem-collect is_edge links m n))))
        h.acyclic;
}
