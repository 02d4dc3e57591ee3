-- ===== src/Candidate/Lifecycle.antt =====
-- The transactions in turn: each keeps the store consistent, and each continues every candidate.
use weave_jacquard.Prelude.{
  ℕ, ◌≡◌, ◌≢◌, refl, sym, ap, subst, true, ◌==◌, inl, inr, Option, some, List, ◌∷◌, arith,
}
use weave_jacquard.Prelude.Text.{Text}
use weave_jacquard.Error.{ok}
use weave_jacquard.Sexpr.Runtime.{Runtime, Digits}
use weave_jacquard.Revision.Database.{
  Operation, Revision, Database, find_revision, draw, update_head,
}
use weave_jacquard.Revision.Database.Sound.{
  draw-IsSound, insert_revision-IsSound, insert_revision-eq-ok, set_head-IsSound,
}
use weave_jacquard.Merge.States.{Documents}
use weave_jacquard.Revision.Commit.CompareAndSet.{find_revision_self}
use weave_jacquard.Revision.Dag.{parents_of}
use weave_jacquard.Revision.Reachable.{Keeps}
use weave_jacquard.Revision.Reachable.Invariants.{Step-Keeps, Step-IsSound, Keeps-same, Keeps-cons}
use weave_jacquard.Candidate.{open_at, with_head, commit_transaction}
use weave_jacquard.Candidate.Table.{
  abandoned, Candidate, Store, is_open, find_candidate, owns_revisions,
}
use weave_jacquard.Candidate.Rows.{find_candidate-cons, find_candidate-first}
use weave_jacquard.Candidate.Ancestry.{
  Ancestor, here, over, Ancestor-Keeps, Ancestor-parent, parents_of-eq-ok,
}
use weave_jacquard.Candidate.Effects.{
  opened_row, committed_revision, published_at, StandsAt, open_transaction-eq-ok,
  commit_transaction-eq-ok, publish_transaction-eq-ok, abandon_transaction-eq-ok,
  revert_transaction-eq-ok, qualify_transaction-eq-ok,
}
use weave_jacquard.Candidate.Invariants.{
  IsBased, IsConsistent, IsBased-Keeps, Continues, same-Continues, AllContinue, Update-IsBased,
  Update-AllContinue,
}
use weave_jacquard.Candidate.Transactions.{
  Transaction, worked, opens, commits, qualifies, publishes, abandons, reverts, Used, at_first,
  after,
}

-- A change of an open row that keeps what a candidate is.
open-Continues :
    (c c' : Candidate)
    → is_open c.status ≡ true
    → c'.project ≡ c.project
    → c'.name ≡ c.name
    → c'.base ≡ c.base
    → Continues c c'
open-Continues c c' o p n b = record { project = p; name = n; base = b; closed = λ h. cc }

open_at-is_open : (head : ℕ) (c : Candidate) → open_at head c ≡ true → is_open c.status ≡ true
open_at-is_open head c h = ground arith

found-open_at :
    {F : Type 0} (s : Store F) (i head : ℕ) (c : Candidate)
    → StandsAt s i head
    → find_candidate i s.candidates ≡ some c
    → open_at head c ≡ true
found-open_at s i head c (d, e, o) h =
    let same : d ≡ c = cc in subst (λ x. open_at head x ≡ true) same o

pub found-is_open :
    {F : Type 0} (s : Store F) (i head : ℕ) (c : Candidate)
    → StandsAt s i head
    → find_candidate i s.candidates ≡ some c
    → is_open c.status ≡ true
found-is_open s i head c stands h = open_at-is_open head c (found-open_at s i head c stands h)

pub found-head :
    {F : Type 0} (s : Store F) (i head : ℕ) (c : Candidate)
    → StandsAt s i head
    → find_candidate i s.candidates ≡ some c
    → c.head ≡ head
found-head s i head c stands h = let o = found-open_at s i head c stands h in ground arith

-- A change of the row that a transaction found open.
found_open :
    {F : Type 0} (s : Store F) (i head : ℕ) (change : Candidate → Candidate) (c : Candidate)
    → StandsAt s i head
    → find_candidate i s.candidates ≡ some c
    → ((d : Candidate) → (change d).project ≡ d.project)
    → ((d : Candidate) → (change d).name ≡ d.name)
    → ((d : Candidate) → (change d).base ≡ d.base)
    → Continues c (change c)
found_open s i head change c stands h p n b =
    open-Continues c (change c) (found-is_open s i head c stands h) (p c) (n c) (b c)

module _ {F : Type 0} ⦃r : Runtime F⦄ ⦃u : Digits⦄ (fresh : ℕ → Text) where
  -- A transaction continues every candidate: its project, its name and its base stay, and once it
  -- is abandoned or published nothing of it changes.
  pub Transaction-AllContinue :
      (s s' : Store F) → Transaction fresh s s' → AllContinue s.candidates s'.candidates
  Transaction-AllContinue s s' (worked step) i c h = (c, h, same-Continues c)
  Transaction-AllContinue s s' (opens p name base j e) i c h =
      let (x, owned, new, only, at) = open_transaction-eq-ok s s' p name base j e in
      let row = opened_row s.db.next p name base in
      (
        c,
        subst (λ t. find_candidate i t.candidates ≡ some c) (sym at)
            (find_candidate-cons i row c s.candidates new h),
        same-Continues c,
      )
  Transaction-AllContinue s s' (commits p j modules base operations revision valid e) i c h =
      let (x, stands, db, candidates, updated, inserted, update, at) =
        commit_transaction-eq-ok s s' p j modules base operations revision e in
      subst (λ t. AllContinue s.candidates t.candidates) (sym at)
        (Update-AllContinue db.revisions j (λ d. d.head == base) (with_head s.db.next) (λ d. refl)
          s.candidates candidates updated
          (λ d found o.
            found_open s j base (with_head s.db.next) d stands found (λ c. refl) (λ c. refl)
              (λ c. refl))
          update)
        i c h
  Transaction-AllContinue s s' (qualifies j head level outcome now q e) i c h =
      let (x, at) = qualify_transaction-eq-ok s s' j head level outcome now q e in
      (c, subst (λ t. find_candidate i t.candidates ≡ some c) (sym at) h, same-Continues c)
  Transaction-AllContinue s s' (publishes p j head branch required_base e) i c h =
      let (x, stands, owned, candidates, updated, update, at) =
        publish_transaction-eq-ok s s' p j head branch required_base e in
      subst (λ t. AllContinue s.candidates t.candidates) (sym at)
        (Update-AllContinue s.db.revisions j (λ d. true) (published_at branch head) (λ d. refl)
          s.candidates candidates updated
          (λ d found o.
            found_open s j head (published_at branch head) d stands found (λ c. refl) (λ c. refl)
              (λ c. refl))
          update)
        i c h
  Transaction-AllContinue s s' (abandons j e) i c h =
      let (candidates, update, at) = abandon_transaction-eq-ok s s' j e in
      subst (λ t. AllContinue s.candidates t.candidates) (sym at)
        (Update-AllContinue s.db.revisions j (λ d. is_open d.status)
          (λ d. record d { status = abandoned }) (λ d. refl) s.candidates candidates true
          (λ d x o. open-Continues d (record d { status = abandoned }) o refl refl refl) update)
        i c h
  Transaction-AllContinue s s' (reverts j head parent second ne at_parent e) i c h =
      let (candidates, update, at) = revert_transaction-eq-ok s s' j head parent e in
      subst (λ t. AllContinue s.candidates t.candidates) (sym at)
        (Update-AllContinue s.db.revisions j (open_at head) (with_head parent) (λ d. refl)
          s.candidates candidates true
          (λ d x o. open-Continues d (with_head parent d) (open_at-is_open head d o) refl refl refl)
          update)
        i c h

module _ {F : Type 0} where
  -- A store whose database has drawn an id and is as it was otherwise.
  drawn-IsConsistent :
      (s : Store F) (i : ℕ) (c : Candidate)
      → IsConsistent s
      → find_candidate i s.candidates ≡ some c
      → IsBased (draw s.db).1 c
  drawn-IsConsistent s i c h e =
      IsBased-Keeps s.db (draw s.db).1 c (Keeps-same s.db (draw s.db).1 refl) (h.based i c e)

  opened-IsBased :
      (s : Store F) (p : ℕ) (name : Text) (base : ℕ)
      → owns_revisions s.db.revisions (opened_row s.db.next p name base) ≡ true
      → IsBased (draw s.db).1 (opened_row s.db.next p name base)
  opened-IsBased s p name base owned = record { owned = owned; descends = here; recorded = λ h. cc }

  committed-IsBased :
      (db db' : Database F) (v : Revision F) (base : ℕ) (c : Candidate)
      → Keeps db db'
      → find_revision v.id db'.revisions ≡ some v
      → v.parent1 ≡ some base
      → (c.head == base) ≡ true
      → is_open c.status ≡ true
      → owns_revisions db'.revisions (with_head v.id c) ≡ true
      → IsBased db c
      → IsBased db' (with_head v.id c)
  committed-IsBased db db' v base c k found parent at o owned b =
      let head : c.head ≡ base = ground arith in
      record {
        owned = owned;
        descends =
            over found parent (Ancestor-Keeps k (subst (Ancestor db c.base) head b.descends));
        recorded = λ h. cc;
      }

  reverted-IsBased :
      (db : Database F) (head parent : ℕ) (second : Option ℕ) (c : Candidate)
      → c.base ≢ head
      → parents_of db head ≡ ok (some parent, second)
      → open_at head c ≡ true
      → owns_revisions db.revisions (with_head parent c) ≡ true
      → IsBased db c
      → IsBased db (with_head parent c)
  reverted-IsBased db head parent second c ne parents o owned b =
      let (v, found, first) = parents_of-eq-ok db head (some parent) second parents in
      let at : c.head ≡ head = ground arith in
      let is_open_c = open_at-is_open head c o in
      record {
        owned = owned;
        descends = Ancestor-parent ne found first (subst (Ancestor db c.base) at b.descends);
        recorded = λ h. cc;
      }

module _ {F : Type 0} ⦃r : Runtime F⦄ ⦃u : Digits⦄ (fresh : ℕ → Text) where
  commits-IsConsistent :
      (s s' : Store F) (p i : ℕ) (modules : Documents F) (base : ℕ) (operations : List Operation)
      (revision : ℕ)
      → IsConsistent s
      → commit_transaction s p i modules base operations ≡ ok (revision, s')
      → IsConsistent s'
  commits-IsConsistent s s' p i modules base operations revision h e =
      let (x, stands, db, candidates, updated, inserted, update, at) =
        commit_transaction-eq-ok s s' p i modules base operations revision e in
      let v = committed_revision s.db p modules base operations in
      let left = (insert_revision-eq-ok v (draw s.db).1 db inserted).4 in
      let stored : db.revisions ≡ v ∷ s.db.revisions = ap (λ d. d.revisions) left in
      let keeps = Keeps-cons s.db db v h.sound (omega arith) stored in
      subst IsConsistent (sym at) (record {
        sound =
            insert_revision-IsSound v (draw s.db).1 db (draw-IsSound s.db h.sound) h.sound.drawn
              (omega arith) inserted;
        based =
            Update-IsBased s.db db i (λ c. c.head == base) (with_head s.db.next) (λ c. refl)
              s.candidates candidates updated keeps h.based
              (λ c found o owned b.
                committed-IsBased s.db db v base c keeps
                  (subst (λ vs. find_revision v.id vs ≡ some v) (sym stored)
                    (find_revision_self v s.db.revisions))
                  refl o (found-is_open s i base c stands found) owned b)
              update;
      })

  -- A transaction keeps a consistent store consistent.
  pub Transaction-IsConsistent :
      (s s' : Store F) → IsConsistent s → Transaction fresh s s' → IsConsistent s'
  Transaction-IsConsistent s s' h (worked {db} step) = record {
    sound = Step-IsSound fresh s.db db h.sound step;
    based =
        λ i c e. IsBased-Keeps s.db db c (Step-Keeps fresh s.db db h.sound step) (h.based i c e);
  }
  Transaction-IsConsistent s s' h (opens p name base j e) =
      let (x, owned, new, only, at) = open_transaction-eq-ok s s' p name base j e in
      let row = opened_row s.db.next p name base in
      subst IsConsistent (sym at) (record {
        sound = draw-IsSound s.db h.sound;
        based = λ i c found. elim (find_candidate-first i row c s.candidates found) [
          | inl same ↦ subst (IsBased (draw s.db).1) (sym same) (opened-IsBased s p name base owned)
          | inr before ↦ drawn-IsConsistent s i c h before
        ];
      })
  Transaction-IsConsistent s s' h (commits p i modules base operations revision valid e) =
      commits-IsConsistent s s' p i modules base operations revision h e
  Transaction-IsConsistent s s' h (qualifies j head level outcome now q e) =
      let (x, at) = qualify_transaction-eq-ok s s' j head level outcome now q e in
      subst IsConsistent (sym at) (record {
        sound = draw-IsSound s.db h.sound;
        based = λ i c found. drawn-IsConsistent s i c h found;
      })
  Transaction-IsConsistent s s' h (publishes p j head branch required_base e) =
      let (x, stands, set, candidates, updated, update, at) =
        publish_transaction-eq-ok s s' p j head branch required_base e in
      let db = record s.db {
        branches = update_head p branch (some required_base) head s.db.branches;
      } in
      subst IsConsistent (sym at) (record {
        sound = set_head-IsSound p branch (some required_base) head s.db db h.sound set;
        based =
            Update-IsBased s.db db j (λ c. true) (published_at branch head) (λ c. refl) s.candidates
              candidates updated (Keeps-same s.db db refl) h.based
              (λ c found o owned b. record {
                owned = owned;
                descends = Ancestor-Keeps (Keeps-same s.db db refl) b.descends;
                recorded = λ p.
                    (branch, ap (λ i. some (branch, i)) (sym (found-head s j head c stands found)));
              })
              update;
      })
  Transaction-IsConsistent s s' h (abandons j e) =
      let (candidates, update, at) = abandon_transaction-eq-ok s s' j e in
      subst IsConsistent (sym at) (record {
        sound = h.sound;
        based =
            Update-IsBased s.db s.db j (λ d. is_open d.status)
              (λ d. record d { status = abandoned }) (λ d. refl) s.candidates candidates true
              (Keeps-same s.db s.db refl) h.based
              (λ c found o owned b. record {
                owned = owned;
                descends = b.descends;
                recorded = λ p. cc;
              })
              update;
      })
  Transaction-IsConsistent s s' h (reverts j head parent second ne parents e) =
      let (candidates, update, at) = revert_transaction-eq-ok s s' j head parent e in
      subst IsConsistent (sym at) (record {
        sound = h.sound;
        based =
            Update-IsBased s.db s.db j (open_at head) (with_head parent) (λ d. refl) s.candidates
              candidates true (Keeps-same s.db s.db refl) h.based
              (λ c found o owned b.
                reverted-IsBased s.db head parent second c (ne c found) parents o owned b)
              update;
      })

  -- Whatever transactions a new store has been through, and in whatever order, its tables are
  -- sound, the base and the head of each candidate are revisions of its project, the head descends
  -- from the base by first parents, and a published candidate was published at its head.
  pub Used-IsConsistent : (s : Store F) → Used fresh s → IsConsistent s
  Used-IsConsistent s (at_first compresses documents) = record {
    sound = record { heads = tt; links = tt; drawn = tt; documents = tt };
    based = λ i c found. unfold find_candidate in cc;
  }
  Used-IsConsistent s (after {s = before} h step) =
      Transaction-IsConsistent before s (Used-IsConsistent before h) step
