-- ===== src/Server/Store/Pulls.antt =====
-- Staged pulls: a staged queue is handed over once, and an old stage goes at the next staging.
use parda.Base.{
  ℕ, false, ◌+◌, ◌<◌, ◌≡◌, ap, [], ◌≢◌, none, some, arith, String, not, ltb, string_key, eq_iff,
  ◌^◌, keep_if,
}
use parda.HashMap.{
  lookup_absent, remove_absent, contains_key, lookup, insert, Distinct, passing, lookup-insert,
  lookup-remove, lookup-keep_if,
}
use parda.Server.Store.Mailbox.{drain_lem}
use parda.Server.Store.{
  RelayStore, Stage, drain, stage_pull, fetch_pull, is_stale, envelopes_of, queue_of,
}

-- A fetch under a token that is not staged finds nothing and changes nothing.
pub fetch_pull-unknown :
    (token : String) (s : RelayStore)
    → contains_key token s.pull_stages ≡ false
    → fetch_pull token s ≡ (none, s)
unfolding fetch_pull
fetch_pull-unknown token s unknown =
    rw (fetch_pull, lookup_absent token s.pull_stages unknown)
      (ap (λ m. (none, record s { pull_stages = m })) (remove_absent token s.pull_stages unknown))

-- Where no token stands twice among the stages, fetching under the token of a staged pull returns
-- exactly what a direct fetch of the mailbox would have returned at staging time; the mailbox is
-- empty after the staging; a second fetch under the token finds nothing; and what is staged under
-- another token stays, unless the staging swept it as stale.
pub fetch_pull-stage_pull :
    (user token other : String) (now_ms : ℕ) (s : RelayStore)
    → Distinct s.pull_stages
    → let staged = stage_pull user token now_ms s in
      let (found, s') = fetch_pull token staged in
      (found ≡ some (drain user s).0)
      × ((drain user staged).0 ≡ [])
      × ((fetch_pull token s').0 ≡ none)
      × (token ≢ other
          → lookup other s'.pull_stages
            ≡ passing (λ e. not (is_stale now_ms e)) other (lookup other s.pull_stages))
unfolding stage_pull fetch_pull drain queue_of
fetch_pull-stage_pull user token other now_ms s distinct =
    let stage : Stage = record {
      messages = envelopes_of (queue_of user s);
      staged_at_ms = now_ms;
    } in
    let kept = keep_if (λ e. not (is_stale now_ms e)) s.pull_stages in
    (
      ground (arith, lookup-insert token token stage kept, eq_iff token token),
      ap envelopes_of (drain_lem user user s).3,
      ground (arith, lookup-remove token token (insert token stage kept), eq_iff token token),
      λ ne. ground (
        arith,
        lookup-remove token other (insert token stage kept),
        lookup-insert token other stage kept,
        lookup-keep_if (λ e. not (is_stale now_ms e)) other s.pull_stages distinct,
        eq_iff token other,
      ),
    )

-- With both clocks below half the 64-bit range, a stage is stale exactly when it is more than
-- five minutes old.
pub is_stale_iff :
    (now_ms : ℕ) (token : String) (stage : Stage)
    → now_ms < 2 ^ 63
    → stage.staged_at_ms < 2 ^ 63
    → is_stale now_ms (token, stage) ≡ ltb (stage.staged_at_ms + 300000) now_ms
is_stale_iff now_ms token stage h k = ground arith
