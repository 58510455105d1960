-- ===== src/Errors/Filter/Bodies.antt =====
-- What holds of the answer to every exception.
use ops_flow_ms.Errors.Filter.{
  Seconds, no_number, not_finite, finite, Message, one, many, other, ResponseObject, Exception,
  http_exception, error_object, anything, text_response, object_response, neither, Reply, reply,
  catch, texts, errors_of, present, message_of, code_of, or_next, retry_of, filled, map_status_code,
  first_or,
}
use ops_flow_ms.Shared.{
  Bool-cases, List, Option, String, [], arith, false, inl, inr, none, or_else, refl, some, some_inj,
  subst, trim, ℕ, ◌==◌, ◌∷◌, ◌≡◌, ◌≤◌, Bool, eqb, if◌then◌else◌, true,
}

abbrev IsFilled : String → Type 0
IsFilled code = (trim code == "") ≡ false

IsFilled-filled : (o : Option String) (code : String) → filled o ≡ some code → IsFilled code
unfolding filled
IsFilled-filled none code e = absurd (cc)
IsFilled-filled (some c) code e = elim (Bool-cases (trim c == "")) [
  | inl blank ↦ absurd (let q : none ≡ some code = rw blank at e in cc)
  | inr full ↦ let same : some c ≡ some code = rw full at e in subst IsFilled (some_inj same) full
]

if-IsFilled : (b : Bool) (x y : String) → IsFilled x → IsFilled y → IsFilled (if b then x else y)
if-IsFilled true x y h k = h
if-IsFilled false x y h k = k

status_texts :
    IsFilled "BAD_REQUEST"
    × IsFilled "UNAUTHORIZED"
    × IsFilled "FORBIDDEN"
    × IsFilled "NOT_FOUND"
    × IsFilled "TOO_MANY_REQUESTS"
    × IsFilled "SERVICE_UNAVAILABLE"
    × IsFilled "HTTP_ERROR"
unfolding trim
status_texts = (refl, refl, refl, refl, refl, refl, refl)

map_status_code-IsFilled : (status : ℕ) → IsFilled (map_status_code status)
unfolding map_status_code
map_status_code-IsFilled status =
    let (a, b, c, d, e, f, g) = status_texts in
    if-IsFilled (eqb status 400) _ _ a (
      if-IsFilled (eqb status 401) _ _ b (
        if-IsFilled (eqb status 403) _ _ c (
          if-IsFilled (eqb status 404) _ _ d
            (if-IsFilled (eqb status 429) _ _ e (if-IsFilled (eqb status 503) _ _ f g)))))

-- Seconds to wait are whole and at least one.
abbrev IsDelay : Option ℕ → Type 0
IsDelay none = Unit
IsDelay (some n) = 1 ≤ n

retry_of-IsDelay : (s : Seconds) → IsDelay (retry_of s)
retry_of-IsDelay no_number = tt
retry_of-IsDelay not_finite = tt
retry_of-IsDelay (finite negative whole fraction) = ground arith

-- Errors that are sent are not an empty list, and the first is the message.
abbrev Lead : String → Option (List String) → Type 0
Lead message none = Unit
Lead message (some []) = ⊥
Lead message (some (e ∷ errors)) = message ≡ e

errors_of-Lead : (m : Message) (default : String) → Lead (message_of m default) (errors_of m)
errors_of-Lead (one text) default = tt
errors_of-Lead other default = tt
errors_of-Lead (many items) default = go (texts items)
  where
    go : (es : List String) → Lead (first_or es default) (present es)
    go [] = tt
    go (e ∷ es) = refl

or_next-IsFilled :
    (o p : Option String) (default : String)
    → ((c : String) → o ≡ some c → IsFilled c)
    → IsFilled (or_else p default)
    → IsFilled (or_else (or_next o p) default)
or_next-IsFilled none p default h k = k
or_next-IsFilled (some c) p default h k = h c refl

module _ {Details : Type 0} where
  code_of-IsFilled :
      (status : ℕ) (response : ResponseObject Details) → IsFilled (code_of status response)
  code_of-IsFilled status response =
      or_next-IsFilled (filled response.code) _ (map_status_code status)
        (IsFilled-filled response.code)
        (or_next-IsFilled (filled response.error_code) (filled response.snake_error_code)
          (map_status_code status) (IsFilled-filled response.error_code)
          (last (filled response.snake_error_code) refl))
    where
      last :
          (o : Option String)
          → filled response.snake_error_code ≡ o
          → IsFilled (or_else o (map_status_code status))
      last none e = map_status_code-IsFilled status
      last (some c) e = IsFilled-filled response.snake_error_code c e

  -- An answer is one that a client can rely on.
  pub record IsConsistent (r : Reply Details) : Type 0 where
    pub same_status : r.body.status_code ≡ r.status
    pub filled_code : IsFilled r.body.code
    pub same_code : (r.body.error_code ≡ r.body.code) × (r.body.snake_error_code ≡ r.body.code)
    pub same_request : r.body.trace_id ≡ r.body.request_id
    pub same_delay : r.retry_after ≡ r.body.retry_after_seconds
    pub whole_delay : IsDelay r.retry_after
    pub lead : Lead r.body.message r.body.errors

  module _ (path timestamp : String) (request_id : Option String) where
    reply-IsConsistent :
        (status : ℕ) (code message : String) (details : Option Details)
        (errors : Option (List String)) (delay : Option ℕ) (logged : Option String)
        → IsFilled code
        → IsDelay delay
        → Lead message errors
        → IsConsistent
            (reply path timestamp request_id status code message details errors delay logged)
    reply-IsConsistent status code message details errors delay logged full whole leads = record {
      same_status = refl;
      filled_code = full;
      same_code = (refl, refl);
      same_request = refl;
      same_delay = refl;
      whole_delay = whole;
      lead = leads;
    }

    -- Every answer of the filter is consistent: the status of the body is the one sent, its three
    -- codes are the same and not blank, the trace id is the request id, the header Retry-After is
    -- the body's delay, a whole number of at least one, and errors that are listed begin with the
    -- message.
    pub catch-IsConsistent :
        (x : Exception Details) → IsConsistent (catch path timestamp request_id x)
    unfolding catch trim
    catch-IsConsistent (http_exception status (text_response text)) =
        reply-IsConsistent status _ text none none none none (map_status_code-IsFilled status) tt tt
    catch-IsConsistent (http_exception status neither) =
        reply-IsConsistent status _ _ none none none none (map_status_code-IsFilled status) tt tt
    catch-IsConsistent (http_exception status (object_response response)) =
        reply-IsConsistent status _ _ response.details (errors_of response.message)
          (retry_of response.retry_after_seconds) none (code_of-IsFilled status response)
          (retry_of-IsDelay response.retry_after_seconds) (errors_of-Lead response.message _)
    catch-IsConsistent (error_object message) =
        reply-IsConsistent 500 _ _ none none none (some message) refl tt tt
    catch-IsConsistent anything = reply-IsConsistent 500 _ _ none none none none refl tt tt

    -- No exception of the filter's own knowledge.
    abbrev IsUnknown : Exception Details → Type 0
    IsUnknown (http_exception status response) = ⊥
    IsUnknown (error_object message) = Unit
    IsUnknown anything = Unit

    -- Any two exceptions that are no exceptions of HTTP are answered with status 500 and the same
    -- body, so that nothing of them reaches the client.
    pub catch_hides :
        (x y : Exception Details)
        → IsUnknown x
        → IsUnknown y
        → ((catch path timestamp request_id x).status ≡ 500)
          × ((catch path timestamp request_id x).body ≡ (catch path timestamp request_id y).body)
    unfolding catch
    catch_hides (error_object m) (error_object n) h k = (refl, refl)
    catch_hides (error_object m) anything h k = (refl, refl)
    catch_hides anything (error_object n) h k = (refl, refl)
    catch_hides anything anything h k = (refl, refl)
    catch_hides (http_exception status response) y h k = absurd h
    catch_hides (error_object m) (http_exception status response) h k = absurd k
    catch_hides anything (http_exception status response) h k = absurd k
