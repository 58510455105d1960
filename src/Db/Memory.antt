-- ===== src/Db/Memory.antt =====
-- A table in memory: it shows that what is assumed of the database client can be met.
use mathlib.Core.Option
use ops_flow_ms.Shared.{
  List, [], ◌∷◌, ◌≡◌, if◌then◌else◌, String, Option, Bool, some, none, is_some, Bool-cases, true,
  ◌==◌, false, inl, arith, eq_iff, Option-cases, eq_of_beq, refl, inr, ◌∙◌, not, any, ◌||◌,
  beq_of_eq,
}
use ops_flow_ms.Db.{change, keep, Outcome, done, Delegate, threw}
use ops_flow_ms.Db.Rows.{All}
use ops_flow_ms.Errors.{Thrown}

module _ {Row : Type 0} (id : Row → String) where
  -- A row is visible if no earlier one has its key.
  abbrev find_row : String → List Row → Option Row
  find_row k [] = none
  find_row k (r ∷ rs) = if id r == k then some r else find_row k rs

  abbrev visible : (Row → Bool) → Option Row → Option Row
  visible p none = none
  visible p (some q) = if p q then some q else none

  abbrev or_later : Option Row → Option Row → Option Row
  or_later none later = later
  or_later (some q) later = some q

  abbrev first_where : (Row → Bool) → List Row → List Row → Option Row
  first_where p all [] = none
  first_where p all (r ∷ rs) = or_later (visible p (find_row (id r) all)) (first_where p all rs)

  abbrev cons_some : Option Row → List Row → List Row
  cons_some none later = later
  cons_some (some q) later = q ∷ later

  abbrev all_where : (Row → Bool) → List Row → List Row → List Row
  all_where p all [] = []
  all_where p all (r ∷ rs) = cons_some (visible p (find_row (id r) all)) (all_where p all rs)

  abbrev update_rows : (Row → Bool) → (Row → Row) → List Row → List Row
  update_rows p f [] = []
  update_rows p f (r ∷ rs) = change p f r ∷ update_rows p f rs

  abbrev delete_rows : (Row → Bool) → List Row → List Row → List Row
  delete_rows p all [] = []
  delete_rows p all (r ∷ rs) =
      if is_some (visible p (find_row (id r) all))
      then delete_rows p all rs
      else r ∷ delete_rows p all rs

  pub find_row-id : (k : String) (s : List Row) {r : Row} → find_row k s ≡ some r → id r ≡ k
  find_row-id k [] e = cc
  find_row-id k (q ∷ s) {r} e = elim (Bool-cases (id q == k)) [
    | inl same ↦ let e' : some q ≡ some r = rw same at e in ground (arith, eq_iff (id q) k)
    | inr other ↦ find_row-id k s (rw other at e)
  ]

  visible_sound :
      (p : Row → Bool) (all : List Row) (k : String) {r : Row}
      → visible p (find_row k all) ≡ some r
      → (p r ≡ true) × (find_row (id r) all ≡ some r)
  visible_sound p all k {r} e = elim (Option-cases (find_row k all)) [
    | inl missing ↦ ground arith
    | inr (q, found) ↦
        let key : id q ≡ k = find_row-id k all found in
        let same : q ≡ r = ground arith in (ground arith, rw (← same, key) found)
  ]

  pub first_where_sound :
      (p : Row → Bool) (all s : List Row) {r : Row}
      → first_where p all s ≡ some r
      → (p r ≡ true) × (find_row (id r) all ≡ some r)
  first_where_sound p all [] e = cc
  first_where_sound p all (q ∷ s) {r} e = elim (Option-cases (visible p (find_row (id q) all))) [
    | inl skipped ↦ first_where_sound p all s (rw skipped at e)
    | inr (found, here) ↦
        let same : some found ≡ some r = rw here at e in visible_sound p all (id q) (here ∙ same)
  ]

  first_where_complete :
      (p : Row → Bool) (all s : List Row) (k : String) {r : Row}
      → first_where p all s ≡ none
      → find_row k all ≡ some r
      → is_some (find_row k s) ≡ true
      → p r ≡ false
  first_where_complete p all [] k e h m = cc
  first_where_complete p all (q ∷ s) k {r} e h m =
      elim (Option-cases (visible p (find_row (id q) all))) [
        | inl skipped ↦ elim (Bool-cases (id q == k)) [
          | inl same ↦
              let e' : visible p (find_row k all) ≡ none = rw (← eq_of_beq (id q) k same) skipped in
              ground arith
          | inr other ↦ first_where_complete p all s k (rw skipped at e) h (rw other at m)
        ]
        | inr (found, here) ↦ ground arith
      ]

  pub all_where_sound :
      (p : Row → Bool) (all s : List Row)
      → All (λ r. (p r ≡ true) × (find_row (id r) all ≡ some r)) (all_where p all s)
  all_where_sound p all [] = tt
  all_where_sound p all (q ∷ s) = elim (Option-cases (visible p (find_row (id q) all))) [
    | inl skipped ↦ rw skipped (all_where_sound p all s)
    | inr (found, here) ↦ rw here (visible_sound p all (id q) here, all_where_sound p all s)
  ]

  find_row-update_rows :
      (p : Row → Bool) (f : Row → Row) (s : List Row) (k : String)
      → ((r : Row) → id (f r) ≡ id r)
      → find_row k (update_rows p f s) ≡ Option.map (change p f) (find_row k s)
  find_row-update_rows p f [] k h = refl
  find_row-update_rows p f (r ∷ s) k h = ground (arith, find_row-update_rows p f s k h, h r)

  all_where_complete :
      (p : Row → Bool) (all s : List Row) (k : String) {r : Row}
      → find_row k all ≡ some r
      → p r ≡ true
      → is_some (find_row k s) ≡ true
      → any (λ q. id q == k) (all_where p all s) ≡ true
  all_where_complete p all [] k found holds here = absurd (cc)
  all_where_complete p all (x ∷ s) k {r} found holds here = elim (Bool-cases (id x == k)) [
    | inl same ↦
        let e : id x ≡ k = eq_of_beq (id x) k same in
        let key : id r ≡ k = find_row-id k all found in
        let own : (id r == k) ≡ true = beq_of_eq (id r) k key in rw (e, found, holds, own) refl
    | inr other ↦
        let rest = all_where_complete p all s k found holds (rw other at here) in
        elim (Option-cases (visible p (find_row (id x) all))) [
          | inl skipped ↦ rw skipped rest
          | inr (q, shown) ↦ rw shown (ground (arith, rest))
        ]
  ]

  find_row-delete_rows :
      (p : Row → Bool) (all s : List Row) (k : String)
      → find_row k (delete_rows p all s)
        ≡ (if is_some (visible p (find_row k all)) then none else find_row k s)
  find_row-delete_rows p all [] k = ground arith
  find_row-delete_rows p all (r ∷ s) k = elim (Bool-cases (id r == k)) [
    | inl same ↦
        let e : id r ≡ k = eq_of_beq (id r) k same in
        rw e (ground (arith, find_row-delete_rows p all s k, eq_iff (id r) k))
    | inr other ↦ ground (arith, find_row-delete_rows p all s k)
  ]

  visible-keep :
      (p : Row → Bool) (o : Option Row)
      → (if is_some (visible p o) then none else o) ≡ keep (λ r. not (p r)) o
  visible-keep p none = refl
  visible-keep p (some q) = ground arith

  module _ (clash : Row → Row → Bool) (error : Thrown) where
    abbrev insert_row : Row → List Row → Outcome (List Row)
    insert_row r s =
        if is_some (find_row (id r) s) || any (clash r) s then threw error else done (r ∷ s)

    pub insert_row_fresh :
        (r : Row) (s : List Row) {t : List Row} → insert_row r s ≡ done t → find_row (id r) s ≡ none
    insert_row_fresh r s {t} e = ground arith

    pub find_row-insert_row :
        (r : Row) (s : List Row) (k : String) {t : List Row}
        → insert_row r s ≡ done t
        → find_row k t ≡ (if id r == k then some r else find_row k s)
    find_row-insert_row r s k {t} e =
        elim (Bool-cases (is_some (find_row (id r) s) || any (clash r) s)) [
          | inl clashes ↦ let e' : threw error ≡ done t = rw clashes at e in cc
          | inr fresh ↦
              let e' : done (r ∷ s) ≡ done t = rw fresh at e in
              let same : r ∷ s ≡ t = ground arith in rw (← same)
        ]

    pub update_law :
        (p : Row → Bool) (f : Row → Row) (s : List Row) (k : String) {t : List Row}
        → ((r : Row) → id (f r) ≡ id r)
        → done (update_rows p f s) ≡ done t
        → find_row k t ≡ Option.map (change p f) (find_row k s)
    update_law p f s k {t} h e =
        let same : update_rows p f s ≡ t = ground arith in
        rw (← same) (find_row-update_rows p f s k h)

    pub delete_law :
        (p : Row → Bool) (s : List Row) (k : String) {t : List Row}
        → done (delete_rows p s s) ≡ done t
        → find_row k t ≡ keep (λ r. not (p r)) (find_row k s)
    delete_law p s k {t} e =
        let same : delete_rows p s s ≡ t = ground arith in
        rw (← same) (find_row-delete_rows p s s k ∙ visible-keep p (find_row k s))

    pub complete_law :
        (p : Row → Bool) (s : List Row) (k : String) {r : Row}
        → first_where p s s ≡ none
        → find_row k s ≡ some r
        → p r ≡ false
    complete_law p s k e h = first_where_complete p s s k e h (rw h)

    pub all_complete_law :
        (p : Row → Bool) (s : List Row) (k : String) {r : Row}
        → find_row k s ≡ some r
        → p r ≡ true
        → any (λ q. id q == k) (all_where p s s) ≡ true
    all_complete_law p s k found holds = all_where_complete p s s k found holds (rw found refl)

    -- The table whose unique constraints a new row violates if it clashes with an old one.
    abbrev pub memory : Delegate id
    memory = record {
      Store = List Row;
      find = find_row;
      find_first = λ p s. first_where p s s;
      find_many = λ p s. all_where p s s;
      create = insert_row;
      update_many = λ p f s. done (update_rows p f s);
      delete_many = λ p s. done (delete_rows p s s);
      find_id = find_row-id;
      find_first_sound = λ p s {r} e. first_where_sound p s s e;
      find_first_complete = complete_law;
      find_many_sound = λ p s. all_where_sound p s s;
      find_many_complete = λ p s k {r} found holds. all_complete_law p s k found holds;
      create_fresh = insert_row_fresh;
      find-create = find_row-insert_row;
      find-update_many = update_law;
      find-delete_many = delete_law;
    }
