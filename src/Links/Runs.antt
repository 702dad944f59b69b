-- ===== src/Links/Runs.antt =====
-- Any sequence of the requests that change links: backend/services/links.py, and what
-- backend/services/projects.py does to a project's links when it is deleted or merged into another.
use knowledgebase_storage.Common.{
  ℕ, String, ◌≡◌, subst, ◌≢◌, inl, inr, Bool, ◌||◌, Option, none, some, List, arith, ◌==◌, eqb,
  Bool-cases, contains,
}
use knowledgebase_storage.Common.Result.{ok}
use knowledgebase_storage.Names.{CharTables}
use knowledgebase_storage.Aliases.{ProjectAlias, resolve}
use knowledgebase_storage.Links.{ProjectLink, same, find, forget}
use knowledgebase_storage.Links.Hierarchy.{IsHierarchy}
use knowledgebase_storage.Links.Edits.{
  IsFresh, write_between-keeps, absorb_one-keeps, judged_between-keeps, apply_found-keeps,
}
use knowledgebase_storage.Links.Dropped.{delete_where-IsHierarchy}
use knowledgebase_storage.Links.Carry.{carry_links}
use knowledgebase_storage.Links.Carry.Moves.{carry_links-IsHierarchy}
use knowledgebase_storage.Links.Service.{
  ProjectLinkWrite, LinkCandidate, LinkVerdict, write, drop, drop_found, absorb_one, judged,
  apply_found, partition,
}

module _ (u : CharTables) where
  -- One request; a request that is refused leaves the links as they are and is no step.
  pub data LinkStep : List ProjectLink → List ProjectLink → Type 0 where
    wrote :
        {links ls : List ProjectLink} {l : ProjectLink} (aliases : List ProjectAlias) (id : ℕ)
        (payload : ProjectLinkWrite)
        → IsFresh id links
        → write u aliases id payload links ≡ ok (l, ls)
        → LinkStep links ls
    dropped :
        {links : List ProjectLink} (aliases : List ProjectAlias) (source other : String)
        → LinkStep links (drop u aliases source other links).1
    absorbed :
        {links : List ProjectLink} (id : ℕ) (summarizer owner other : String)
        (candidate : LinkCandidate)
        → IsFresh id links
        → LinkStep links (absorb_one id summarizer owner other candidate links)
    judged_pair :
        {links : List ProjectLink} (id : ℕ) (summarizer : String) (verdict : LinkVerdict)
        (pair : String)
        → IsFresh id links
        → LinkStep links (judged id summarizer verdict pair links).1
    applied :
        {links ls : List ProjectLink} {l : ProjectLink} (aliases : List ProjectAlias)
        (turned : Bool) (source other : String)
        → find links (resolve u aliases source) (resolve u aliases other) ≡ some l
        → l.kind ≢ same
        → apply_found turned l links ≡ ok ls
        → LinkStep links ls
    forgot : {links : List ProjectLink} (slugs : List String) → LinkStep links (forget slugs links)
    carried :
        {links : List ProjectLink} (source target : String)
        → LinkStep links (carry_links source target links)

  pub data LinkRun : List ProjectLink → List ProjectLink → Type 0 where
    rest : {links : List ProjectLink} → LinkRun links links
    next : {links ls ms : List ProjectLink} → LinkStep links ls → LinkRun ls ms → LinkRun links ms

  drop-IsHierarchy :
      (o : Option ProjectLink) (links : List ProjectLink)
      → IsHierarchy links
      → IsHierarchy (drop_found o links).1
  unfolding drop_found
  drop-IsHierarchy none links h = h
  drop-IsHierarchy (some l) links h = delete_where-IsHierarchy (λ m. eqb m.id l.id) links h

  judged-IsHierarchy :
      (id : ℕ) (summarizer : String) (verdict : LinkVerdict) (pair : String)
      (links : List ProjectLink)
      → IsHierarchy links
      → IsFresh id links
      → IsHierarchy (judged id summarizer verdict pair links).1
  unfolding judged
  judged-IsHierarchy id summarizer verdict pair links h fresh =
      let left = (partition "~" pair).0 in
      let right = (partition "~" pair).1 in
      elim (Bool-cases (left == "" || right == "")) [
        | inl e ↦ rw e h
        | inr e ↦ rw e (judged_between-keeps id summarizer verdict left right links h fresh)
      ]

  LinkStep-IsHierarchy :
      {links ls : List ProjectLink} → LinkStep links ls → IsHierarchy links → IsHierarchy ls
  unfolding write drop forget
  LinkStep-IsHierarchy {links} {ls} (wrote {l = l} aliases id payload fresh e) h =
      elim (write_between-keeps id payload (resolve u aliases payload.source)
        (resolve u aliases payload.target) links h fresh) [
          | inl (r, _, _) ↦ absurd (cc (e, r))
          | inr (m, ms, r, _, _, _, _, k) ↦ subst IsHierarchy (ground (arith, r, e)) k
        ]
  LinkStep-IsHierarchy {links} (dropped aliases source other) h =
      drop-IsHierarchy (find links (resolve u aliases source) (resolve u aliases other)) links h
  LinkStep-IsHierarchy {links} (absorbed id summarizer owner other c fresh) h =
      absorb_one-keeps id summarizer owner other c links h fresh
  LinkStep-IsHierarchy {links} (judged_pair id summarizer v pair fresh) h =
      judged-IsHierarchy id summarizer v pair links h fresh
  LinkStep-IsHierarchy {links} {ls} (applied {l = l} aliases turned source other f kept e) h =
      apply_found-keeps turned links (resolve u aliases source) (resolve u aliases other) l ls h f e
  LinkStep-IsHierarchy {links} (forgot slugs) h =
      delete_where-IsHierarchy (λ l. contains slugs l.source || contains slugs l.target) links h
  LinkStep-IsHierarchy {links} (carried source target) h =
      carry_links-IsHierarchy source target links h

  -- Whatever links are written, dropped, absorbed from notes, judged, confirmed, turned round,
  -- forgotten and carried from a merged project to another, with a fresh identifier for each new row,
  -- and in whatever order: from links that are a hierarchy, at most one link joins two projects, and no
  -- project is part of itself through part_of links that are not judged unrelated.
  pub reachable-IsHierarchy :
      {links ls : List ProjectLink} → LinkRun links ls → IsHierarchy links → IsHierarchy ls
  reachable-IsHierarchy rest h = h
  reachable-IsHierarchy (next s r) h = reachable-IsHierarchy r (LinkStep-IsHierarchy s h)
