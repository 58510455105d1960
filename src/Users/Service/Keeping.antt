-- ===== src/Users/Service/Keeping.antt =====
-- Writes to the table of users that stay within an organization.
use ops_flow_ms.Users.Repository.{in_scope, owner}
use ops_flow_ms.Users.Dto.{owns}
use ops_flow_ms.Users.Service.Access.{Belongs}
use ops_flow_ms.Shared.{
  Bool, Bool-cases, String, ap, arith, eq_of_beq, false, inl, inr, some, subst, sym, true, ◌&&◌,
  ◌==◌, ◌∙◌, ◌≡◌, ◌⊎◌, Option-cases, beq_of_eq, ◌≢◌,
}
use ops_flow_ms.Db.{Delegate, change, done}
use ops_flow_ms.Db.Isolation.{Isolates, Isolates-refl, Isolates-trans, update_many-Isolates}
use ops_flow_ms.Auth.{User, user_id}

and_right : (a b : Bool) → (a && b) ≡ true → b ≡ true
and_right a b h = ground arith

and_left : (a b : Bool) → (a && b) ≡ true → a ≡ true
and_left a b h = ground arith

module _ (users : Delegate user_id) (org id : String) where
  -- Users of other organizations stay as they are, and the user with the id stays in the organization.
  abbrev pub Keeps : users.Store → users.Store → Type 0
  Keeps s t =
      Isolates users owner org s t
      × ((u : User) → Belongs users org id s u → (v : User) × Belongs users org id t v)

  pub Keeps-refl : (s : users.Store) → Keeps s s
  Keeps-refl s = (Isolates-refl users owner org s, λ u b. (u, b))

  pub Keeps-trans : (s t r : users.Store) → Keeps s t → Keeps t r → Keeps s r
  Keeps-trans s t r (h, stays) (k, stays') =
      (Isolates-trans users owner org s t r h k, λ u b. stays' (stays u b).0 (stays u b).1)

  update_many-Keeps :
      (p : User → Bool) (f : User → User) (s t : users.Store)
      → ((r : User) → user_id (f r) ≡ user_id r)
      → ((r : User) → owner (f r) ≡ owner r)
      → ((r : User) → users.find (user_id r) s ≡ some r → p r ≡ true → owner r ≡ org)
      → users.update_many p f s ≡ done t
      → Keeps s t
  update_many-Keeps p f s t keeps_id keeps_owner inside e = (
    update_many-Isolates users owner org p f s t keeps_id keeps_owner inside e,
    λ u b.
        let law = rw b.0 at (users.find-update_many p f s id keeps_id e) in
        (change p f u, (law, changed_owner u b.1 (Bool-cases (p u)))),
  )
    where
      changed_owner :
          (u : User)
          → u.organization_id ≡ org
          → (p u ≡ true) ⊎ (p u ≡ false)
          → owner (change p f u) ≡ org
      changed_owner u own (inl touched) = rw touched (keeps_owner u ∙ own)
      changed_owner u own (inr untouched) = rw untouched own

  pub scoped-Keeps :
      (f : User → User) (s t : users.Store)
      → ((r : User) → user_id (f r) ≡ user_id r)
      → ((r : User) → owner (f r) ≡ owner r)
      → users.update_many (in_scope org id) f s ≡ done t
      → Keeps s t
  scoped-Keeps f s t keeps_id keeps_owner e =
      update_many-Keeps (in_scope org id) f s t keeps_id keeps_owner
        (λ r here within.
          eq_of_beq r.organization_id org
            (and_right (r.id == id) (r.organization_id == org) within))
        e

  pub owned-Keeps :
      (f : User → User) (s t : users.Store) (u : User)
      → ((r : User) → user_id (f r) ≡ user_id r)
      → ((r : User) → owner (f r) ≡ owner r)
      → Belongs users org id s u
      → users.update_many (owns id) f s ≡ done t
      → Keeps s t
  owned-Keeps f s t u keeps_id keeps_owner (here, own) e =
      update_many-Keeps (owns id) f s t keeps_id keeps_owner
        (λ r here' key.
          let there : users.find id s ≡ some r =
            subst (λ x. users.find x s ≡ some r) (eq_of_beq r.id id key) here' in
          let same : u ≡ r = cc in ap owner (sym same) ∙ own)
        e

  -- The user with the id is changed, and every other row stays.
  abbrev pub Touches : users.Store → users.Store → User → Type 0
  Touches s t v =
      (users.find id t ≡ some v) × ((k : String) → k ≢ id → users.find k t ≡ users.find k s)

  pub Touches-trans :
      (s t r : users.Store) {v w : User} → Touches s t v → Touches t r w → Touches s r w
  Touches-trans s t r h k = (k.0, λ j other. k.1 j other ∙ h.1 j other)

  update_many-Touches :
      (p : User → Bool) (f : User → User) (s t : users.Store) (u : User)
      → ((r : User) → user_id (f r) ≡ user_id r)
      → ((r : User) → p r ≡ true → r.id ≡ id)
      → users.find id s ≡ some u
      → p u ≡ true
      → users.update_many p f s ≡ done t
      → Touches s t (f u)
  update_many-Touches p f s t u keeps_id only_id here hit e = (
    rw here at (users.find-update_many p f s id keeps_id e) ∙ (rw hit),
    λ k other.
        let law = users.find-update_many p f s k keeps_id e in
        elim (Option-cases (users.find k s)) [
          | inl gone ↦ law ∙ rw gone
          | inr (q, there) ↦ law ∙ rw there (rw (untouched k other q there))
        ],
  )
    where
      untouched : (k : String) → k ≢ id → (q : User) → users.find k s ≡ some q → p q ≡ false
      untouched k other q there = elim (Bool-cases (p q)) [
        | inl touched ↦ absurd (other (sym (users.find_id k s there) ∙ only_id q touched))
        | inr not' ↦ not'
      ]

  pub scoped-Touches :
      (f : User → User) (s t : users.Store) (u : User)
      → ((r : User) → user_id (f r) ≡ user_id r)
      → Belongs users org id s u
      → users.update_many (in_scope org id) f s ≡ done t
      → Touches s t (f u)
  scoped-Touches f s t u keeps_id (here, own) e =
      update_many-Touches (in_scope org id) f s t u keeps_id
        (λ r within. eq_of_beq r.id id (and_left (r.id == id) (r.organization_id == org) within))
        here (rw (beq_of_eq u.id id (users.find_id id s here), beq_of_eq u.organization_id org own))
        e

  pub owned-Touches :
      (f : User → User) (s t : users.Store) (u : User)
      → ((r : User) → user_id (f r) ≡ user_id r)
      → users.find id s ≡ some u
      → users.update_many (owns id) f s ≡ done t
      → Touches s t (f u)
  owned-Touches f s t u keeps_id here e =
      update_many-Touches (owns id) f s t u keeps_id (λ r key. eq_of_beq r.id id key) here
        (beq_of_eq u.id id (users.find_id id s here)) e
