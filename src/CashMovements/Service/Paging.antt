-- ===== src/CashMovements/Service/Paging.antt =====
-- The pages of a listing, put together, are the list of the query without pages.
use mathlib.Core.List.{map-append}
use native.Mathlib.Nat.{div-add-mod', mod-lt}
use ops_flow_ms.Branches.Repository.{branch_id}
use ops_flow_ms.CashMovements.Repository.{movement_id, build_where_input}
use ops_flow_ms.CashMovements.Service.{find_all}
use ops_flow_ms.Db.Rows.{take, drop}
use ops_flow_ms.Db.Pages.{Pages}
use ops_flow_ms.Shared.{
  ceil_div, List, [], ap, arith, length, refl, suc, zero, ℕ, ◌*◌, ◌++◌, ◌+◌, ◌∷◌, ◌≡◌, ◌≤◌, Bool,
  Option, String, map, or_else, some, ◌-◌, sym, ◌∙◌, subst,
}
use ops_flow_ms.CashMovements.Input.{
  page_count, CashMovementResponse, Decimals, ListCashMovementsDto, Meta, Movement, map_movement,
  parse_date_range,
}
use ops_flow_ms.AuthContext.{AuthenticatedUserContext}
use ops_flow_ms.Db.{Delegate}
use ops_flow_ms.Errors.Result.{Result, err, ok, >>=-eq-ok, ok_inj}
use ops_flow_ms.Branches.Access.{resolve_branch_for_filter}

module _ {ℓ} {A : Type ℓ} where
  take-nil : (n : ℕ) → take {A = A} n [] ≡ []
  take-nil zero = refl
  take-nil (suc n) = refl

  take-add : (m n : ℕ) (xs : List A) → take (m + n) xs ≡ take m xs ++ take n (drop m xs)
  take-add zero n xs = ground arith
  take-add (suc m) n [] = let e : suc m + n ≡ suc (m + n) = omega arith in rw (e, take-nil n)
  take-add (suc m) n (x ∷ xs) =
      let e : suc m + n ≡ suc (m + n) = omega arith in rw e (ap (λ l. x ∷ l) (take-add m n xs))

  take_all : (n : ℕ) (xs : List A) → length xs ≤ n → take n xs ≡ xs
  take_all zero [] h = refl
  take_all zero (x ∷ xs) h = absurd (omega arith)
  take_all (suc n) [] h = refl
  take_all (suc n) (x ∷ xs) h = ap (λ l. x ∷ l) (take_all n xs (omega arith))

ceil_div_covers : (total size : ℕ) → 1 ≤ size → total ≤ ceil_div total size * size
ceil_div_covers total size h =
    omega (arith, div-add-mod' (total + size - 1) size, mod-lt (total + size - 1) {m = size} h)

page_count_covers : (total size : ℕ) → 1 ≤ size → total ≤ page_count total size * size
page_count_covers total size h = ground (arith, ceil_div_covers total size h)

module _ (dec : Decimals) (db : Delegate branch_id)
    (mv : Delegate (movement_id {Decimal = dec.Decimal})) (parse_date : String → Option ℕ)
    (pages : Pages mv) (query : ListCashMovementsDto) (u : AuthenticatedUserContext) (b : db.Store)
    (s : mv.Store) where
  -- The same query for another page.
  abbrev for_page : ℕ → ListCashMovementsDto
  for_page page = record query { page = some page }

  abbrev listed : Result (List CashMovementResponse × Meta) → List CashMovementResponse
  listed (ok (items, _)) = items
  listed (err _) = []

  -- The first pages of the query, one request for each, put together.
  pub gather : ℕ → List CashMovementResponse
  gather zero = []
  gather (suc n) = gather n ++ listed (find_all dec db mv parse_date pages (for_page (suc n)) u b s)

  abbrev pub condition : Option ℕ → Option ℕ → Option String → Movement dec → Bool
  condition from to branch = build_where_input u.organization_id (record {
    branch_id = branch;
    status = query.status;
    from = from;
    to = to;
    page = 1;
    page_size = or_else query.page_size 20;
  })

  find_all_page :
      (from to : Option ℕ) (branch : Option String) (page : ℕ)
      → parse_date_range parse_date query.from query.to ≡ ok (from, to)
      → resolve_branch_for_filter db b u query.branch_id ≡ ok branch
      → listed (find_all dec db mv parse_date pages (for_page page) u b s)
        ≡ map (map_movement dec) (
            pages.find_page
              (condition from to branch)
              ((page - 1) * or_else query.page_size 20)
              (or_else query.page_size 20)
              s)
  unfolding find_all
  find_all_page from to branch page dated resolved = rw (find_all, dated, resolved)

  gather_lem :
      (from to : Option ℕ) (branch : Option String)
      → parse_date_range parse_date query.from query.to ≡ ok (from, to)
      → resolve_branch_for_filter db b u query.branch_id ≡ ok branch
      → (n : ℕ)
      → gather n
        ≡ map
            (map_movement dec)
            (take (n * or_else query.page_size 20) (pages.ordered (condition from to branch) s))
  unfolding gather
  gather_lem from to branch dated resolved zero =
      let e : zero * or_else query.page_size 20 ≡ zero = omega arith in rw e
  gather_lem from to branch dated resolved (suc n) =
      let size = or_else query.page_size 20 in
      let rows = pages.ordered (condition from to branch) s in
      let e : suc n * size ≡ n * size + size = omega arith in
      let one : suc n - 1 ≡ n = omega arith in
      let back : (suc n - 1) * size ≡ n * size = ap (λ k. k * size) one in
      let page : listed (find_all dec db mv parse_date pages (for_page (suc n)) u b s)
          ≡ map (map_movement dec) (take size (drop (n * size) rows)) =
        find_all_page from to branch (suc n) dated resolved
        ∙ ap (map (map_movement dec))
            (pages.find_page_slice _ _ _ s ∙ ap (λ k. take size (drop k rows)) back) in
      rw (gather_lem from to branch dated resolved n, page, e, take-add (n * size) size rows)
        (sym
          (map-append (map_movement dec) (take (n * size) rows) (take size (drop (n * size) rows))))

  -- When a listing is answered, as many requests as it names pages, one for each page, put
  -- together bring exactly the list that the query gives without pages, in its order. The page
  -- size has to be at least one.
  pub gather_complete :
      (items : List CashMovementResponse) (info : Meta)
      → 1 ≤ or_else query.page_size 20
      → find_all dec db mv parse_date pages query u b s ≡ ok (items, info)
      → (from to : Option ℕ) × (branch : Option String) × (parse_date_range parse_date query.from
            query.to
          ≡ ok (from, to))
        × (resolve_branch_for_filter db b u query.branch_id ≡ ok branch)
        × (gather info.total_pages
            ≡ map (map_movement dec) (pages.ordered (condition from to branch) s))
  unfolding find_all
  gather_complete items info sized e =
      let ((from, to), dated, e₁) =
        >>=-eq-ok (parse_date_range parse_date query.from query.to) _ e in
      let (branch, resolved, e₂) =
        >>=-eq-ok (resolve_branch_for_filter db b u query.branch_id) _ e₁ in
      let size = or_else query.page_size 20 in
      let rows = pages.ordered (condition from to branch) s in
      let same = ok_inj _ (items, info) e₂ in
      let total : page_count (length rows) size ≡ info.total_pages =
        ap (λ k. page_count k size) (sym (pages.count_ordered (condition from to branch) s))
        ∙ ap (λ x. x.1.total_pages) same in
      let enough : length rows ≤ info.total_pages * size =
        subst (λ k. length rows ≤ k * size) total (page_count_covers (length rows) size sized) in
      (
        from,
        to,
        branch,
        dated,
        resolved,
        gather_lem from to branch dated resolved info.total_pages
            ∙ ap (map (map_movement dec)) (take_all (info.total_pages * size) rows enough),
      )
