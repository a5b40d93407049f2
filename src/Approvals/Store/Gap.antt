-- ===== src/Approvals/Store/Gap.antt =====
-- `fetch` reads the row in one statement and expires it in another, and opens no transaction in
-- between: here other processes' calls come between the two.
use sudo_agent.Base.{
  ℕ, String, ◌≡◌, refl, ap, sym, true, false, Option, none, some, List, [], if◌then◌else◌,
  Bool-cases, inl, inr,
}
use sudo_agent.Base.Text.{is_blank}
use sudo_agent.Base.Dict.{lookup, insert}
use sudo_agent.Approvals.Common.{ok, is_pending, expired, validate_nonempty_str}
use sudo_agent.Approvals.Store.{
  Approval, Store, Action, lift, ◌>>◌, is_stale, expire, fetch, fetch_on,
}
use sudo_agent.Approvals.Store.Lifecycle.{Call, run, Evolves}
use sudo_agent.Approvals.Store.Outcomes.{lookup-insert_self}

-- `UPDATE approvals SET state = 'expired', resolved_at = ? WHERE request_id = ?`, on the row that is
-- there.
abbrev pub update_expired : String → ℕ → Option Approval → Store → Store
update_expired rid now none s = s
update_expired rid now (some a) s = record s { rows = insert rid (expire now a) s.rows }

-- The rest of `fetch` on the row that was read, on a table that others may have changed since.
abbrev pub finish_fetch : String → ℕ → ℕ → Option Approval → Action (Option Approval)
finish_fetch rid now now' none s = (ok none, s)
finish_fetch rid now now' (some a) s =
    if is_stale now a
    then (ok (some (expire now' a)), update_expired rid now' (lookup rid s.rows) s)
    else (ok (some a), s)

unfoldable pub fetch_around : String → ℕ → ℕ → List Call → Action (Option Approval)
unfolding validate_nonempty_str
fetch_around rid now now' calls = lift (validate_nonempty_str "request_id" rid) >> λ s.
    finish_fetch rid now now' (lookup rid s.rows) (run calls s)

finish_fetch-eq :
    (rid : String) (now now' : ℕ) (s : Store) (o : Option Approval)
    → lookup rid s.rows ≡ o
    → finish_fetch rid now now' o s ≡ fetch_on rid now now' o s
finish_fetch-eq rid now now' s none e = refl
finish_fetch-eq rid now now' s (some a) e = rw e refl

-- With no call between its two statements, fetch is the fetch that is one step.
pub fetch_around_nothing :
    (rid : String) (now now' : ℕ) (s : Store)
    → fetch_around rid now now' [] s ≡ fetch rid now now' s
unfolding fetch fetch_around validate_nonempty_str
fetch_around_nothing rid now now' s = elim (Bool-cases (is_blank rid)) [
  | inl h ↦ rw h refl
  | inr h ↦ rw h (finish_fetch-eq rid now now' s (lookup rid s.rows) refl)
]

-- Where the row that fetch reads is pending past its time, the id is not blank and the calls that
-- come between its two statements leave the row resolved, and not as expired: fetch reports what it
-- had read as expired, and the resolved row does not stay as it is but becomes expired.
pub fetch_around_resolution :
    (rid : String) (now now' : ℕ) (calls : List Call) (s : Store) (a b : Approval)
    → is_blank rid ≡ false
    → lookup rid s.rows ≡ some a
    → is_stale now a ≡ true
    → lookup rid (run calls s).rows ≡ some b
    → is_pending b.state ≡ false
    → ¬ (b.state ≡ expired)
    → let (r, s') = fetch_around rid now now' calls s in
      (r ≡ ok (some (expire now' a)))
      × (lookup rid s'.rows ≡ some (expire now' b))
      × ¬ Evolves (some b) (lookup rid s'.rows)
unfolding fetch_around validate_nonempty_str
fetch_around_resolution rid now now' calls s a b named read stale left final other =
    rw (named, read, stale, left, lookup-insert_self rid (expire now' b) (run calls s))
      (refl, refl, λ ev. other (ap (λ c. c.state) (sym (ev.3 final))))
