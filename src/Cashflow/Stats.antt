-- ===== src/Cashflow/Stats.antt =====
-- What the statistics cover, and how their counts add up.
use ops_flow_ms.Branches.Repository.{branch_id}
use ops_flow_ms.Branches.Access.{resolve_branch_for_filter}
use ops_flow_ms.CashMovements.Repository.{
  CashMovementRecord, movement_id, at_least, at_most, has_branch,
}
use ops_flow_ms.CashMovements.Transition.{
  CashMovementStatus, approved, delivered, pending, rejected, status_eq,
}
use ops_flow_ms.CashMovements.Input.{is_reversed}
use ops_flow_ms.Cashflow.{
  CashflowStatsQueryDto, CashflowStats, DecimalSums, Aggregates, count_where, or_default,
  parse_bound, resolve_range, stats_where, of_status, get_stats,
}
use ops_flow_ms.Errors.Result.{>>=-eq-ok, ok, ok_inj, throw_if, throw_if-eq-ok}
use ops_flow_ms.AuthContext.{AuthenticatedUserContext}
use ops_flow_ms.Shared.{
  Bool, List, Option, String, [], arith, false, if◌then◌else◌, none, refl, some, subst, truthy, ℕ,
  ◌&&◌, ◌+◌, ◌∷◌, ◌≡◌, ◌≤◌, Bool-cases, ap, inl, inr, leb, true, ◌==◌, ◌∙◌,
}
use ops_flow_ms.Db.{Delegate}

-- A range whose ends, where it has both, are in order.
abbrev IsOrdered : Option ℕ → Option ℕ → Type 0
IsOrdered (some from) (some to) = from ≤ to
IsOrdered _ _ = Unit

or_default-IsOrdered :
    (parse_date : String → Option ℕ) (now : ℕ) (from to : Option ℕ)
    → is_reversed from to ≡ false
    → IsOrdered (or_default parse_date now from to).0 (or_default parse_date now from to).1
or_default-IsOrdered parse_date now none none h = omega arith
or_default-IsOrdered parse_date now none (some t) h = tt
or_default-IsOrdered parse_date now (some f) none h = tt
or_default-IsOrdered parse_date now (some f) (some t) h = ground arith

-- A range that is resolved is in order.
pub resolve_range-IsOrdered :
    (parse_date : String → Option ℕ) (now : ℕ) (from to : Option String) (f t : Option ℕ)
    → resolve_range parse_date now from to ≡ ok (f, t)
    → IsOrdered f t
unfolding resolve_range
resolve_range-IsOrdered parse_date now from to f t e =
    let (f', _, e₁) = >>=-eq-ok (parse_bound parse_date (truthy from)) _ e in
    let (t', _, e₂) = >>=-eq-ok (parse_bound parse_date (truthy to)) _ e₁ in
    let (_, ordered, e₃) = >>=-eq-ok (throw_if (is_reversed f' t') _) _ e₂ in
    let same = ok_inj _ (f, t) e₃ in
    subst (λ x. IsOrdered x.0 x.1) same
      (or_default-IsOrdered parse_date now f' t' (throw_if-eq-ok _ _ ordered))

module _ (parse_date : String → Option ℕ) (dec : DecimalSums) (db : Delegate branch_id)
    (mv : Delegate (movement_id {Decimal = dec.Decimal})) (sums : Aggregates mv dec.Decimal) where
  one_status :
      (p : Bool) (status : CashMovementStatus)
      → (if p && status_eq status pending then 1 else 0)
          + (if p && status_eq status approved then 1 else 0)
          + (if p && status_eq status delivered then 1 else 0)
          + (if p && status_eq status rejected then 1 else 0)
        ≡ (if p then 1 else 0)
  one_status p pending = ground arith
  one_status p approved = ground arith
  one_status p delivered = ground arith
  one_status p rejected = ground arith

  abbrev of :
      (CashMovementRecord dec.Decimal → Bool)
      → CashMovementStatus
      → CashMovementRecord dec.Decimal
      → Bool
  of = of_status parse_date dec db mv sums

  counts_add :
      (p : CashMovementRecord dec.Decimal → Bool) (rows : List (CashMovementRecord dec.Decimal))
      → count_where (of p pending) rows
          + count_where (of p approved) rows
          + count_where (of p delivered) rows
          + count_where (of p rejected) rows
        ≡ count_where p rows
  counts_add p [] = refl
  counts_add p (m ∷ rows) = omega (arith, one_status (p m) m.status, counts_add p rows)

  -- The movements that the statistics are about: those of an organization, of the branch where one is
  -- given, made no earlier than one end of the range and no later than the other.
  abbrev in_branch : Option String → String → Bool
  in_branch none own = true
  in_branch (some branch) own = if branch == "" then true else own == branch

  abbrev is_between : Option ℕ → Option ℕ → ℕ → Bool
  is_between none none time = true
  is_between none (some to) time = leb time to
  is_between (some from) none time = leb from time
  is_between (some from) (some to) time = leb from time && leb time to

  abbrev pub is_covered :
      String → Option String → Option ℕ → Option ℕ → CashMovementRecord dec.Decimal → Bool
  is_covered organization branch from to m =
      m.organization_id == organization
      && in_branch branch m.branch_id
      && is_between from to m.created_at

  abbrev pub has_status : CashMovementStatus → CashMovementStatus → Bool
  has_status pending pending = true
  has_status approved approved = true
  has_status delivered delivered = true
  has_status rejected rejected = true
  has_status _ _ = false

  same_branch :
      (branch : Option String) (own : String)
      → has_branch (truthy branch) own ≡ in_branch branch own
  same_branch none own = refl
  same_branch (some branch) own = elim (Bool-cases (branch == "")) [
    | inl blank ↦ rw blank refl
    | inr other ↦ rw other refl
  ]

  same_range :
      (from to : Option ℕ) (time : ℕ)
      → (at_least from time && at_most to time) ≡ is_between from to time
  same_range none none time = refl
  same_range none (some to) time = refl
  same_range (some from) none time = ground arith
  same_range (some from) (some to) time = refl

  same_status : (a b : CashMovementStatus) → status_eq a b ≡ has_status a b
  same_status pending pending = refl
  same_status pending approved = refl
  same_status pending rejected = refl
  same_status pending delivered = refl
  same_status approved pending = refl
  same_status approved approved = refl
  same_status approved rejected = refl
  same_status approved delivered = refl
  same_status rejected pending = refl
  same_status rejected approved = refl
  same_status rejected rejected = refl
  same_status rejected delivered = refl
  same_status delivered pending = refl
  same_status delivered approved = refl
  same_status delivered rejected = refl
  same_status delivered delivered = refl

  stats_where_lem :
      (organization : String) (branch : Option String) (from to : Option ℕ)
      (m : CashMovementRecord dec.Decimal)
      → stats_where parse_date dec db mv sums organization branch from to m
        ≡ is_covered organization branch from to m
  stats_where_lem organization branch from to m =
      ground (arith, same_branch branch m.branch_id, same_range from to m.created_at)

  count_same :
      (p q : CashMovementRecord dec.Decimal → Bool) (rows : List (CashMovementRecord dec.Decimal))
      → ((m : CashMovementRecord dec.Decimal) → p m ≡ q m)
      → count_where p rows ≡ count_where q rows
  count_same p q [] h = refl
  count_same p q (m ∷ rows) h =
      rw (h m) (ap (λ n. (if q m then 1 else 0) + n) (count_same p q rows h))

  -- How many of the covered movements have a status.
  abbrev pub covered :
      String → Option String → Option ℕ → Option ℕ → CashMovementStatus → mv.Store → ℕ
  covered organization branch from to status s =
      count_where (λ m. is_covered organization branch from to m && has_status m.status status)
        (sums.all s)

  counted :
      (organization : String) (branch : Option String) (from to : Option ℕ)
      (status : CashMovementStatus) (s : mv.Store)
      → sums.count (of (stats_where parse_date dec db mv sums organization branch from to) status) s
        ≡ covered organization branch from to status s
  counted organization branch from to status s =
      sums.count_all (of (stats_where parse_date dec db mv sums organization branch from to) status)
        s
      ∙ count_same _ _ (sums.all s) (λ m.
        let place = stats_where_lem organization branch from to m in
        let state = same_status m.status status in rw (place, state) refl)

  -- Each of the four counts of some statistics is that of the covered movements.
  abbrev pub AreCounted : String → mv.Store → CashflowStats → Type 0
  AreCounted organization s stats =
      (stats.cards.pending_count
        ≡ covered organization stats.branch_id stats.from stats.to pending s)
      × (stats.cards.approved_count
          ≡ covered organization stats.branch_id stats.from stats.to approved s)
      × (stats.cards.delivered_count
          ≡ covered organization stats.branch_id stats.from stats.to delivered s)
      × (stats.cards.rejected_count
          ≡ covered organization stats.branch_id stats.from stats.to rejected s)
      × (stats.cards.pending_count + stats.cards.approved_count + stats.cards.delivered_count
            + stats.cards.rejected_count
          ≡ count_where (is_covered organization stats.branch_id stats.from stats.to) (sums.all s))

  -- Statistics that are answered are about one range, in order, and the branch that the filter resolves;
  -- each of their four counts is the number of movements with that status of the user's organization, in that
  -- branch where there is one and in that range, and together they count each such movement once.
  pub get_stats_sound :
      (now : ℕ) (query : CashflowStatsQueryDto) (u : AuthenticatedUserContext) (b : db.Store)
      (s : mv.Store) (stats : CashflowStats)
      → get_stats parse_date dec db mv sums now query u b s ≡ ok stats
      → IsOrdered stats.from stats.to
        × (resolve_branch_for_filter db b u query.branch_id ≡ ok stats.branch_id)
        × AreCounted u.organization_id s stats
  unfolding get_stats
  get_stats_sound now query u b s stats e =
      let ((f, t), ranged, e₁) = >>=-eq-ok (resolve_range parse_date now query.from query.to) _ e in
      let (branch, resolved, e₂) =
        >>=-eq-ok (resolve_branch_for_filter db b u query.branch_id) _ e₁ in
      let p = stats_where parse_date dec db mv sums u.organization_id branch f t in
      let each = λ (status : CashMovementStatus). counted u.organization_id branch f t status s in
      subst
        (λ (x : CashflowStats).
          IsOrdered x.from x.to
          × (resolve_branch_for_filter db b u query.branch_id ≡ ok x.branch_id)
          × AreCounted u.organization_id s x)
        (ok_inj _ stats e₂)
        (
          resolve_range-IsOrdered parse_date now query.from query.to f t ranged,
          resolved,
          (
            each pending,
            each approved,
            each delivered,
            each rejected,
            omega (
              arith,
              counts_add p (sums.all s),
              sums.count_all (of p pending) s,
              sums.count_all (of p approved) s,
              sums.count_all (of p delivered) s,
              sums.count_all (of p rejected) s,
            )
                ∙ count_same p (is_covered u.organization_id branch f t) (sums.all s)
                    (stats_where_lem u.organization_id branch f t),
          ),
        )
