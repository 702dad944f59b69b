-- ===== src/Links/Service.antt =====
-- backend/services/links.py: what a user states about two projects, what a session or a verdict says of
-- them, and what is read from the links. `LinkService.apply` is modelled for the kinds that it keeps;
-- a SAME link is applied by a merge of the projects.
use Prim.Native.Char.{Char}
use Prim.Native.String as Text
use knowledgebase_storage.Common.{
  ℕ, String, Bool, true, false, not, ◌&&◌, ◌||◌, Option, none, some, List, [], ◌∷◌, ◌==◌, eqb,
  if◌then◌else◌, is_some, keep,
}
use knowledgebase_storage.Common.Result.{Result, ok, link_would_cycle, ◌>>◌, raise_if}
use knowledgebase_storage.Common.Table.{delete_where}
use knowledgebase_storage.Names.{CharTables, char_eq}
use knowledgebase_storage.Aliases.{ProjectAlias, resolve}
use knowledgebase_storage.Links.{
  ProjectLink, LinkKind, related, is_part_of, find, around, would_cycle, settled, save_link,
}

pub record ProjectLinkWrite : Type 0 where
  pub kind : LinkKind
  pub source : String
  pub target : String
  pub description : String
  pub stated_by_user : String
  pub confirmed : Bool
  pub summarizer : String

-- `new or old` of two texts
abbrev pub or_old : String → String → String
or_old new old = if new == "" then old else new

unfoldable pub new_link : ℕ → LinkKind → String → String → ProjectLink
new_link id kind source target = record {
  id = id;
  kind = kind;
  source = source;
  target = target;
  description = "";
  stated_by_user = "";
  confirmed = false;
  unrelated = false;
  summarizer = "";
}

unfoldable pub existing_or : Option ProjectLink → ProjectLink → ProjectLink
existing_or none link = link
existing_or (some held) link = held

unfoldable pub written_link : ProjectLinkWrite → String → String → ProjectLink → ProjectLink
written_link payload source target link = record link {
  kind = payload.kind;
  source = source;
  target = target;
  description = or_old payload.description link.description;
  stated_by_user = or_old payload.stated_by_user link.stated_by_user;
  confirmed = payload.confirmed;
  unrelated = false;
  summarizer = or_old payload.summarizer link.summarizer;
}

-- `write`, between the slugs that the two names resolve to.
unfoldable pub write_between :
    (id : ℕ)
    → ProjectLinkWrite
    → String
    → String
    → List ProjectLink
    → Result (ProjectLink × List ProjectLink)
unfolding written_link existing_or new_link
write_between id payload source target links = do
  raise_if (is_part_of payload.kind && would_cycle links source target) link_would_cycle
  let link =
      written_link payload source target
        (existing_or (find links source target) (new_link id payload.kind source target))
  ok (link, save_link link links)

unfoldable pub write :
    CharTables
    → List ProjectAlias
    → (id : ℕ) → ProjectLinkWrite
    → List ProjectLink
    → Result (ProjectLink × List ProjectLink)
unfolding write_between
write u aliases id payload links =
    write_between id payload (resolve u aliases payload.source) (resolve u aliases payload.target)
      links

-- The row is deleted; the answer says whether there was one.
unfoldable pub drop_found : Option ProjectLink → List ProjectLink → Bool × List ProjectLink
unfolding delete_where
drop_found none links = (false, links)
drop_found (some link) links = (true, delete_where (λ l. eqb l.id link.id) links)

unfoldable pub drop :
    CharTables → List ProjectAlias → String → String → List ProjectLink → Bool × List ProjectLink
unfolding drop_found
drop u aliases source target links =
    drop_found (find links (resolve u aliases source) (resolve u aliases target)) links

-- One link that a session's note names, from the note's project `owner`.
pub record LinkCandidate : Type 0 where
  pub project : String
  pub relation : LinkKind
  pub description : String
  pub quote : String

unfoldable pub absorb_one :
    (id : ℕ) (summarizer owner other : String) → LinkCandidate → List ProjectLink → List ProjectLink
unfolding settled new_link
absorb_one id summarizer owner other candidate links =
    let saved = record (new_link id (settled links candidate.relation owner other) owner other) {
      description = candidate.description;
      summarizer = summarizer;
    } in
    if other == owner || is_some (find links owner other) then links else save_link saved links

pub data VerdictKind : Type 0 where
  linked : LinkKind → VerdictKind
  unrelated : VerdictKind

pub data Part : Type 0 where
  a b neither : Part

pub record LinkVerdict : Type 0 where
  pub verdict : VerdictKind
  pub part : Part
  pub description : String

abbrev pub is_unrelated : VerdictKind → Bool
is_unrelated unrelated = true
is_unrelated (linked k) = false

abbrev pub is_b : Part → Bool
is_b b = true
is_b _ = false

abbrev pub is_confirmed : Option ProjectLink → Bool
is_confirmed none = false
is_confirmed (some l) = l.confirmed

unfoldable pub judged_kind : List ProjectLink → VerdictKind → String → String → LinkKind
unfolding settled
judged_kind links unrelated source target = related
judged_kind links (linked kind) source target = settled links kind source target

unfoldable pub judged_link :
    (summarizer : String)
    → LinkVerdict
    → String
    → String
    → List ProjectLink
    → ProjectLink
    → ProjectLink
unfolding judged_kind
judged_link summarizer verdict source target links link =
    let none_of_it = is_unrelated verdict.verdict in
    record link {
      kind = judged_kind links verdict.verdict source target;
      source = source;
      target = target;
      description = if none_of_it then "" else verdict.description;
      unrelated = none_of_it;
      confirmed = false;
      summarizer = summarizer;
    }

unfoldable pub judged_between :
    (id : ℕ) (summarizer : String)
    → LinkVerdict
    → String
    → String
    → List ProjectLink
    → Bool × List ProjectLink
unfolding judged_link existing_or new_link
judged_between id summarizer verdict left right links =
    let existing = find links left right in
    let swapped = is_b verdict.part && not (is_unrelated verdict.verdict) in
    let source = if swapped then right else left in
    let target = if swapped then left else right in
    let link =
      judged_link summarizer verdict source target links
        (existing_or existing (new_link id related source target)) in
    if is_confirmed existing
    then (false, links)
    else (not (is_unrelated verdict.verdict), save_link link links)

-- `pair.partition("~")`: what stands before the first tilde, and after it
unfoldable pub partition : Char → String → String × String
partition mark Text.[] = ("", "")
partition mark (Text.◌∷◌ c s) =
    let (left, right) = partition mark s in
    if char_eq c mark then ("", s) else (Text.◌∷◌ c left, right)

unfoldable pub judged :
    (id : ℕ) (summarizer : String)
    → LinkVerdict
    → (pair : String) → List ProjectLink
    → Bool × List ProjectLink
unfolding partition judged_between
judged id summarizer verdict pair links =
    let (left, right) = partition "~" pair in
    if left == "" || right == ""
    then (false, links)
    else judged_between id summarizer verdict left right links

-- `apply` of a link that is not SAME, found between the two projects.
unfoldable pub apply_found :
    (reverse : Bool) → ProjectLink → List ProjectLink → Result (List ProjectLink)
apply_found false link links = ok (save_link (record link { confirmed = true }) links)
apply_found true link links = do
  raise_if (is_part_of link.kind && would_cycle links link.target link.source) link_would_cycle
  ok (
      save_link (record link { source = link.target; target = link.source; confirmed = true })
        links)

-- `standing`, `holders` and the other project of a link
unfoldable pub standing : List ProjectLink → String → List ProjectLink
unfolding around keep
standing links project = keep (λ l. not l.unrelated) (around links project)

unfoldable pub holders_of : String → List ProjectLink → List String
holders_of project [] = []
holders_of project (l ∷ ls) =
    let rest = holders_of project ls in
    if is_part_of l.kind && l.source == project then l.target ∷ rest else rest

abbrev pub other_of : String → ProjectLink → String
other_of project l = if l.source == project then l.target else l.source
