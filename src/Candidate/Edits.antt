-- ===== src/Candidate/Edits.antt =====
-- A batch on a candidate, and what `inspect` shows of it.
use weave_jacquard.Prelude.{
  ℕ, ◌≡◌, refl, sym, ap, subst, ◌∙◌, true, ◌==◌, Option, some, Bool, List, ◌∷◌, arith, reverse,
  ==-refl,
}
use weave_jacquard.Prelude.Text.{Text}
use weave_jacquard.Error.{ok, >>=-eq-ok, stale_revision}
use weave_jacquard.Sexpr.Runtime.{Runtime}
use weave_jacquard.Sexpr.Node.{Node}
use weave_jacquard.Merge.States.{document_of}
use weave_jacquard.Revision.Database.{Revision, find_revision, belongs, draw}
use weave_jacquard.Revision.Database.Sound.{insert_revision-eq-ok, belongs-lt}
use weave_jacquard.Revision.Commit.{
  project_id, require_expected_head, or_not_found, state_at_revision,
}
use weave_jacquard.Revision.Commit.CompareAndSet.{find_revision_self}
use weave_jacquard.Revision.Commit.Success.{or_not_found-eq-ok}
use weave_jacquard.Revision.Workspace.{put_document, validate_state}
use weave_jacquard.Batch.{Draft, transform}
use weave_jacquard.Batch.Input.{Raw}
use weave_jacquard.Candidate.{
  Edit, load, require_open, inspect, apply_candidate_batch, with_head, qualification_view,
}
use weave_jacquard.Candidate.Table.{Candidate, Store, find_candidate, latest_qualification, is_open}
use weave_jacquard.Candidate.Rows.{Update-at}
use weave_jacquard.Candidate.Effects.{commit_transaction-eq-ok, committed_revision}
use weave_jacquard.Candidate.Ancestry.{EditChain, edit_history-EditChain}
use weave_jacquard.Candidate.Invariants.{IsConsistent}
use weave_jacquard.Candidate.Publishing.{load-eq-ok, require_open-eq-ok, find_candidate-id}

module _ {F : Type 0} ⦃r : Runtime F⦄ (fresh : ℕ → Text) where
  -- What a batch on a candidate read, computed and left.
  pub record IsEdited (s s' : Store F) (i : ℕ) (document : Text) (raws : List (Raw F))
      (revision : ℕ) : Type 0 where
    pub c : Candidate
    pub root : Node F
    pub draft : Draft F
    pub v : Revision F
    pub loaded : find_candidate i s.candidates ≡ some c
    pub was_open : is_open c.status ≡ true
    -- the document of the candidate's head, edited, in a valid state
    pub read : document_of document (state_at_revision s.db c.head) ≡ some root
    pub transformed : transform fresh root raws ≡ ok draft
    pub modules : v.modules ≡ put_document document draft.root (state_at_revision s.db c.head)
    pub validated : validate_state v.modules ≡ ok tt
    -- a new revision over that head, which is the candidate's head now
    pub stored : find_revision revision s'.db.revisions ≡ some v
    pub parent : v.parent1 ≡ some c.head
    pub head : find_candidate i s'.candidates ≡ some (with_head revision c)
    -- and no branch has moved
    pub branches : s'.db.branches ≡ s.db.branches

  -- A batch on a candidate that returns stores the edited and validated state of the candidate's
  -- head as a new revision over that head, makes it the candidate's head, and moves no branch.
  pub apply_candidate_batch-IsEdited :
      (s s' : Store F) (project : Text) (i : ℕ) (document : Text) (raws : List (Raw F))
      (expected : Option ℕ) (revision : ℕ)
      → apply_candidate_batch fresh s project i document raws expected ≡ ok (revision, s')
      → IsEdited s s' i document raws revision
  unfolding apply_candidate_batch
  apply_candidate_batch-IsEdited s s' project i document raws expected revision h =
      let (c, e₁, h₁) = >>=-eq-ok (require_open s project i) _ h in
      let (u₂, e₂, h₂) = >>=-eq-ok (require_expected_head c.head expected stale_revision) _ h₁ in
      let state = state_at_revision s.db c.head in
      let (root, e₃, h₃) = >>=-eq-ok (or_not_found (document_of document state)) _ h₂ in
      let (d, e₄, h₄) = >>=-eq-ok (transform fresh root raws) _ h₃ in
      let state' = put_document document d.root state in
      let (u₅, e₅, h₅) = >>=-eq-ok (validate_state state') _ h₄ in
      let (p, e₆, h₆) = >>=-eq-ok (project_id s.db project) _ h₅ in
      let (at, o) = require_open-eq-ok s project i c e₁ in
      let (number, stands, db, candidates, updated, inserted, update, left) =
        commit_transaction-eq-ok s s' p c.id state' c.head d.log revision h₆ in
      let v = committed_revision s.db p state' c.head d.log in
      let after = (insert_revision-eq-ok v (draw s.db).1 db inserted).4 in
      let same : c.id ≡ i = find_candidate-id i c s.candidates at in
      let changed : find_candidate c.id candidates ≡ some (with_head s.db.next c) =
        Update-at db.revisions c.id (λ x. x.head == c.head) (with_head s.db.next) (λ x. refl) c
          update (subst (λ k. find_candidate k s.candidates ≡ some c) (sym same) at)
          (==-refl c.head) in
      record {
        c = c;
        root = root;
        draft = d;
        v = v;
        loaded = at;
        was_open = o;
        read = or_not_found-eq-ok (document_of document state) root e₃;
        transformed = e₄;
        modules = refl;
        validated = e₅;
        stored =
            ap (λ t. find_revision revision t.db.revisions) left
            ∙ ap (λ t. find_revision revision t.revisions) after
            ∙ ap (λ k. find_revision k (v ∷ s.db.revisions)) number
            ∙ find_revision_self v s.db.revisions;
        parent = refl;
        head =
            ap (λ t. find_candidate i t.candidates) left
            ∙ ap (λ k. find_candidate k candidates) (sym same)
            ∙ changed
            ∙ ap (λ k. some (with_head k c)) (sym number);
        branches = ap (λ t. t.db.branches) left ∙ ap (λ t. t.branches) after;
      }

module _ {F : Type 0} where
  -- In a consistent store `inspect` answers for every candidate of the project: its row, its
  -- latest qualification, and as its edits the chain of revisions from its base to its head, the
  -- first edit first. It reports no cycle.
  pub inspect_succeeds :
      (id_lt : ℕ → ℕ → Bool) (s : Store F) (project : Text) (i : ℕ) (c : Candidate)
      → IsConsistent s
      → load s project i ≡ ok c
      → (edits : List Edit) × EditChain s.db c.base c.head edits
        × (inspect id_lt s project i
            ≡ ok (record {
              candidate = c;
              edits = reverse edits;
              view = qualification_view c.head (latest_qualification id_lt c.id s.qualifications);
            }))
  unfolding inspect
  inspect_succeeds id_lt s project i c k h =
      let based = k.based i c (load-eq-ok s project i c h) in
      let head_owned : belongs s.db.revisions c.project c.head ≡ true =
        ground (arith, based.owned) in
      let (edits, run, chain) =
        edit_history-EditChain s.db c.base c.head k.sound
          (belongs-lt s.db.next c.project c.head s.db.revisions k.sound.drawn head_owned)
          based.descends in
      (edits, chain, rw (h, run) refl)
