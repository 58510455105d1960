-- ===== src/Audit/Log.antt =====
-- The audit log keeps account of the requests, in whatever order the writes end.
use ops_flow_ms.Audit.{
  AuditEntry, AuditState, Handled, no_object, pick, settle, intercept, completed, failed, fields,
  ended, in_front, should_log, handled_status, handled_error, request_id_of, log, entry_of,
}
use ops_flow_ms.Shared.{
  Bool, List, Option, String, [], arith, concat, if◌then◌else◌, none, or_else, refl, some, subst,
  suc, zero, ℕ, ◌&&◌, ◌++◌, ◌+◌, ◌==◌, ◌||◌, ◌∷◌, ◌≡◌, ap, eq_iff, false, true, ◌∙◌, ◌≤◌,
  Bool-cases, inl, inr,
}
use ops_flow_ms.Guards.{Header, header_value}
use ops_flow_ms.Metrics.Interceptor.{HttpRequest}

-- What happens: a request is handled, or the write at an index of those that were started ends.
pub data Event : Type 0 where
  request : HttpRequest → Header → Option String → Handled → Event
  write_ends : ℕ → Bool → Event

unfoldable pub run : List Event → AuditState → AuditState
unfolding intercept settle
run [] a = a
run (request req header sub handled ∷ later) a = run later (intercept req header sub handled a)
run (write_ends n stores ∷ later) a = run later (settle stores n a)

abbrev pub count_where : (AuditEntry → Bool) → List AuditEntry → ℕ
count_where p [] = 0
count_where p (x ∷ xs) = (if p x then 1 else 0) + count_where p xs

-- A method that may change state.
abbrev pub may_change : String → Bool
may_change method =
    (method == "POST") || (method == "PUT") || (method == "PATCH") || (method == "DELETE")

-- The status and the error that the entry of a request has to show.
abbrev pub shown_status : Handled → ℕ
shown_status (completed status) = status
shown_status (failed no_object) = 500
shown_status (failed (fields none message)) = 500
shown_status (failed (fields (some status) message)) = status

abbrev pub error_of : Handled → Option String
error_of (completed status) = none
error_of (failed no_object) = some "Unknown error"
error_of (failed (fields status none)) = some "Unknown error"
error_of (failed (fields status (some message))) = some message

abbrev pub url_of : HttpRequest → String
url_of req = or_else req.original_url req.url

abbrev pub id_of : HttpRequest → Header → Option String
id_of req header = elim req.request_id [ none ↦ header_value header | some id ↦ some id ]

-- The entry of a request.
abbrev pub expected : HttpRequest → Header → Option String → Handled → AuditEntry
expected req header sub handled = record {
  actor_user_id = sub;
  action = concat req.method (concat " " (url_of req));
  method = req.method;
  path = url_of req;
  ip = req.ip;
  user_agent = req.user_agent;
  status_code = some (shown_status handled);
  request_id = id_of req header;
  metadata_error = error_of handled;
}

-- How many of the entries that some events call for pass a test.
abbrev pub called : (AuditEntry → Bool) → List Event → ℕ
called p [] = 0
called p (write_ends n stores ∷ later) = called p later
called p (request req header sub handled ∷ later) =
    (if may_change req.method && p (expected req header sub handled) then 1 else 0) + called p later

-- How many entries that pass a test are stored, refused or still being written.
abbrev pub accounted : (AuditEntry → Bool) → AuditState → ℕ
accounted p a = count_where p a.table + count_where p a.refused + count_where p a.pending

count_where-append :
    (p : AuditEntry → Bool) (xs : List AuditEntry) (x : AuditEntry)
    → count_where p (xs ++ x ∷ []) ≡ count_where p xs + (if p x then 1 else 0)
count_where-append p [] x = omega arith
count_where-append p (y ∷ xs) x = let rest = count_where-append p xs x in omega (arith, rest)

pick-count :
    (p : AuditEntry → Bool) (n : ℕ) (xs : List AuditEntry) (x : AuditEntry) (rest : List AuditEntry)
    → pick n xs ≡ some (x, rest)
    → count_where p xs ≡ count_where p rest + (if p x then 1 else 0)
pick-count p n [] x rest e = absurd (cc)
pick-count p zero (y ∷ ys) x rest e =
    let same : ◌≡◌ {A = AuditEntry × List AuditEntry} (y, ys) (x, rest) = cc in
    subst (λ q. count_where p (y ∷ ys) ≡ count_where p q.1 + (if p q.0 then 1 else 0)) same
      (omega arith)
pick-count p (suc n) (y ∷ ys) x rest e =
    go (pick n ys) (λ z zs is. pick-count p n ys z zs is) refl e
  where
    go :
        (o : Option (AuditEntry × List AuditEntry))
        → ((z : AuditEntry) (zs : List AuditEntry)
            → pick n ys ≡ some (z, zs)
            → count_where p ys ≡ count_where p zs + (if p z then 1 else 0))
        → pick n ys ≡ o
        → in_front y o ≡ some (x, rest)
        → count_where p (y ∷ ys) ≡ count_where p rest + (if p x then 1 else 0)
    go none later is e' = absurd (cc)
    go (some (z, zs)) later is e' =
        let same : ◌≡◌ {A = AuditEntry × List AuditEntry} (z, y ∷ zs) (x, rest) = cc in
        let inner = later z zs is in
        subst (λ q. count_where p (y ∷ ys) ≡ count_where p q.1 + (if p q.0 then 1 else 0)) same
          (omega (arith, inner))

-- The end of a write moves its entry, and none leaves the table.
settle-accounted :
    (p : AuditEntry → Bool) (stores : Bool) (n : ℕ) (a : AuditState)
    → (accounted p (settle stores n a) ≡ accounted p a)
      × (count_where p a.table ≤ count_where p (settle stores n a).table)
unfolding settle
settle-accounted p stores n a = go (pick n a.pending) refl stores
  where
    go :
        (o : Option (AuditEntry × List AuditEntry))
        → pick n a.pending ≡ o
        → (stores : Bool)
        → (accounted p (ended stores a o) ≡ accounted p a)
          × (count_where p a.table ≤ count_where p (ended stores a o).table)
    go none is stores = (refl, omega arith)
    go (some (x, rest)) is true =
        let moved = pick-count p n a.pending x rest is in
        let added = count_where-append p a.table x in
        (omega (arith, moved, added), omega (arith, added))
    go (some (x, rest)) is false =
        let moved = pick-count p n a.pending x rest is in
        let added = count_where-append p a.refused x in (omega (arith, moved, added), omega arith)

same_method : (m : String) → should_log m ≡ may_change m
same_method m = ground (
  arith,
  eq_iff "POST" m,
  eq_iff m "POST",
  eq_iff "PUT" m,
  eq_iff m "PUT",
  eq_iff "PATCH" m,
  eq_iff m "PATCH",
  eq_iff "DELETE" m,
  eq_iff m "DELETE",
)

same_status : (h : Handled) → handled_status h ≡ shown_status h
same_status (completed status) = refl
same_status (failed no_object) = refl
same_status (failed (fields none message)) = refl
same_status (failed (fields (some status) message)) = refl

same_error : (h : Handled) → handled_error h ≡ error_of h
same_error (completed status) = refl
same_error (failed no_object) = refl
same_error (failed (fields status none)) = refl
same_error (failed (fields status (some message))) = refl

same_id :
    (o : Option String) (header : Header)
    → request_id_of o header ≡ elim o [ none ↦ header_value header | some id ↦ some id ]
same_id none header = refl
same_id (some id) header = refl

entry_of-expected :
    (req : HttpRequest) (header : Header) (sub : Option String) (handled : Handled)
    → entry_of req header sub handled ≡ expected req header sub handled
entry_of-expected req header sub handled =
    rw (same_status handled, same_error handled, same_id req.request_id header) refl

intercept-accounted :
    (p : AuditEntry → Bool) (req : HttpRequest) (header : Header) (sub : Option String)
    (handled : Handled) (a : AuditState)
    → (accounted p (intercept req header sub handled a)
        ≡ accounted p a + called p (request req header sub handled ∷ []))
      × (count_where p a.table ≤ count_where p (intercept req header sub handled a).table)
unfolding intercept log
intercept-accounted p req header sub handled a =
    let e = entry_of-expected req header sub handled in
    let entry = expected req header sub handled in
    elim (Bool-cases (may_change req.method)) [
      | inr silent ↦
          let loud : should_log req.method ≡ false = same_method req.method ∙ silent in
          rw (loud, silent) (omega arith, omega arith)
      | inl changes ↦
          let loud : should_log req.method ≡ true = same_method req.method ∙ changes in
          let added = count_where-append p a.pending entry in
          rw (loud, changes, e) (omega (arith, added), omega arith)
    ]

-- Whatever requests are handled and in whatever order the writes of their entries end, every entry that the
-- requests call for is stored, refused or still being written, exactly once, and no entry that is stored is
-- lost: for every test of entries, as many pass it as before and as called for, and the table has no fewer.
-- A request calls for an entry if its method is POST, PUT, PATCH or DELETE, with the user, the method, path,
-- request id and status, and the message of what was thrown.
pub run-accounted :
    (p : AuditEntry → Bool) (events : List Event) (a : AuditState)
    → (accounted p (run events a) ≡ accounted p a + called p events)
      × (count_where p a.table ≤ count_where p (run events a).table)
unfolding run
run-accounted p [] a = (omega arith, omega arith)
run-accounted p (write_ends n stores ∷ later) a =
    let (same, grows) = settle-accounted p stores n a in
    let (rest, more) = run-accounted p later (settle stores n a) in
    (rest ∙ ap (λ k. k + called p later) same, omega (arith, grows, more))
run-accounted p (request req header sub handled ∷ later) a =
    let (one, grows) = intercept-accounted p req header sub handled a in
    let (rest, more) = run-accounted p later (intercept req header sub handled a) in
    (omega (arith, one, rest), omega (arith, grows, more))
