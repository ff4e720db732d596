-- ===== src/Memory/Refines/Order.antt =====
-- Stores up to the order of their map entries, in which registrations commute
-- (backend/service/repository/conformance/implementation.go, `RegisterRepository`).
use mathlib.Core.Bool.{false≢true}
use mathlib.Core.Path.{ap₂}
use mathlib.Core.Quot
use mathlib.Core.Quot.{Quot}
use software_engineering_pla.Shared.{
  ◌≡◌, refl, sym, ap, ◌∙◌, inl, inr, Bool, true, false, ◌&&◌, List, none, some, if◌then◌else◌,
  Bool-cases,
}
use software_engineering_pla.Die.Text.{Text, text_eq, lookup, insert}
use software_engineering_pla.Die.Text.Order.{text_eq_refl, text_eq_sound, text_eq-flip}
use software_engineering_pla.Die.Text.Maps.{lookup-insert}
use software_engineering_pla.Repo.Valid.{Unicode}
use software_engineering_pla.Repo.Errors.{Outcome}
use software_engineering_pla.Repo.Values.{Time, Repository, RegisterRepositoryRequest}
use software_engineering_pla.Memory.{MemoryStore, check_context, repository_key}
use software_engineering_pla.Memory.Store.{
  Decision, answers, stores, idempotent, registered, registration_fingerprint, register_stored,
  keep_repository,
}

-- maps that hold the same
abbrev SameMap : {V : Type 0} → List (Text × V) → List (Text × V) → Type 0
SameMap m n = (k : Text) → lookup k m ≡ lookup k n

pub record Alike (m n : MemoryStore) : Type 0 where
  pub same_repositories : SameMap m.repositories n.repositories
  pub same_scans : SameMap m.scans n.scans
  pub same_artifacts : SameMap m.artifacts n.artifacts
  pub same_payloads : SameMap m.payloads n.payloads
  pub same_requests : SameMap m.requests n.requests
  pub same_closed : m.is_closed ≡ n.is_closed

-- what the maps of a store hold
abbrev pub Contents : Type 0
Contents = Quot Alike

abbrev pub contents : MemoryStore → Contents
contents m = Quot.mk m

Alike-refl : (m : MemoryStore) → Alike m m
Alike-refl m = record {
  same_repositories = λ k. refl;
  same_scans = λ k. refl;
  same_artifacts = λ k. refl;
  same_payloads = λ k. refl;
  same_requests = λ k. refl;
  same_closed = refl;
}

-- two tests of which one fails
either_first :
    {V : Type 0} (a b : Bool) (v w o : V)
    → a && b ≡ false
    → (if b then w else if a then v else o) ≡ (if a then v else if b then w else o)
either_first true true v w o h = absurd (false≢true (sym h))
either_first true false v w o h = refl
either_first false b v w o h = refl

-- a text is not equal to two that differ
not_both : (j k i : Text) → text_eq j k ≡ false → text_eq j i && text_eq k i ≡ false
not_both j k i apart = elim (Bool-cases (text_eq j i)) [
  | inr e ↦ ap (λ b. b && text_eq k i) e
  | inl e ↦ elim (Bool-cases (text_eq k i)) [
    | inr f ↦ ap₂ (λ a b. a && b) e f
    | inl f ↦
        let same = text_eq_sound j i e ∙ sym (text_eq_sound k i f) in
        absurd (false≢true (sym apart ∙ ap (λ x. text_eq x k) same ∙ text_eq_refl k))
  ]
]

module _ {V : Type 0} (m : List (Text × V)) (j k : Text) (apart : text_eq j k ≡ false) where
  lookup-insert_apart : (v : V) → lookup k (insert j v m) ≡ lookup k m
  lookup-insert_apart v = lookup-insert m j k v ∙ ap (λ b. if b then some v else lookup k m) apart

  insert-commute : (v w : V) → SameMap (insert k w (insert j v m)) (insert j v (insert k w m))
  insert-commute v w i =
      lookup-insert (insert j v m) k i w
      ∙ (ap (λ o. if text_eq k i then some w else o) (lookup-insert m j i v)
          ∙ (either_first (text_eq j i) (text_eq k i) (some v) (some w) (lookup i m)
                (not_both j k i apart)
              ∙ (ap (λ o. if text_eq j i then some v else o) (sym (lookup-insert m k i w))
                  ∙ sym (lookup-insert (insert k w m) j i v))))

-- two registrations, by their keys, with nothing in common
module _ (j k p q f g : Text) (apart : text_eq j k ≡ false) (unrelated : text_eq p q ≡ false) where
  reads_same :
      (m : MemoryStore) (d : Decision Repository)
      → (lookup q (keep_repository j p f m d).1.requests ≡ lookup q m.requests)
        × (lookup k (keep_repository j p f m d).1.repositories ≡ lookup k m.repositories)
  reads_same m (answers o) = (refl, refl)
  reads_same m (stores v) = (
    lookup-insert_apart m.requests p q unrelated f,
    lookup-insert_apart m.repositories j k apart v,
  )

  keep_repository-Alike :
      (m : MemoryStore) (c d : Decision Repository)
      → Alike
          (keep_repository k q g (keep_repository j p f m c).1 d).1
          (keep_repository j p f (keep_repository k q g m d).1 c).1
  keep_repository-Alike m (answers o) d = Alike-refl (keep_repository k q g m d).1
  keep_repository-Alike m (stores v) (answers o) = Alike-refl (keep_repository j p f m (stores v)).1
  keep_repository-Alike m (stores v) (stores w) = record {
    same_repositories = insert-commute m.repositories j k apart v w;
    same_scans = λ i. refl;
    same_artifacts = λ i. refl;
    same_payloads = λ i. refl;
    same_requests = insert-commute m.requests p q unrelated f g;
    same_closed = refl;
  }

abbrev decision : Text → Text → Text → Outcome Repository → MemoryStore → Decision Repository
decision key request fingerprint made m =
    idempotent (lookup request m.requests) fingerprint (lookup key m.repositories) made

module _ (j k p q f g : Text) (made other : Outcome Repository) (apart : text_eq j k ≡ false)
    (unrelated : text_eq p q ≡ false) where
  -- the second registration reads the same behind the first
  attempt_behind :
      (m : MemoryStore) (c : Decision Repository)
      → keep_repository k q g
          (keep_repository j p f m c).1
          (decision k q g other (keep_repository j p f m c).1)
        ≡ keep_repository k q g (keep_repository j p f m c).1 (decision k q g other m)
  attempt_behind m c =
      let (a, b) = reads_same j k p q f g apart unrelated m c in
      ap₂ (λ x y. keep_repository k q g (keep_repository j p f m c).1 (idempotent x g y other)) a b

keep_repository-outcome :
    (key request fingerprint : Text) (m n : MemoryStore) (d : Decision Repository)
    → (keep_repository key request fingerprint m d).0
      ≡ (keep_repository key request fingerprint n d).0
keep_repository-outcome key request fingerprint m n (answers o) = refl
keep_repository-outcome key request fingerprint m n (stores v) = refl

module _ (u : Unicode) (sha256 : Text → Text) (now : Time) where
  abbrev attempt : RegisterRepositoryRequest → MemoryStore → Outcome Repository × MemoryStore
  attempt = register_stored u sha256 now (some none)

  -- what each of two registrations returns does not depend on whether the other was first, and the
  -- stores that the two orders lead to hold the same
  abbrev pub Commutes : RegisterRepositoryRequest → RegisterRepositoryRequest → MemoryStore → Type 0
  Commutes r s m =
      ((attempt s (attempt r m).1).0 ≡ (attempt s m).0)
      × ((attempt r (attempt s m).1).0 ≡ (attempt r m).0)
      × (contents (attempt s (attempt r m).1).1 ≡ contents (attempt r (attempt s m).1).1)

  -- Two registrations under live contexts, of repositories with different keys and for requests with
  -- different keys, commute: what each returns does not depend on whether the other was first, and the
  -- stores that the two orders lead to are equal as contents of their maps.
  pub register_stored-commute :
      (r s : RegisterRepositoryRequest) (m : MemoryStore)
      → text_eq
          (repository_key r.scope.scope_id r.repository_id)
          (repository_key s.scope.scope_id s.repository_id)
        ≡ false
      → text_eq
          (repository_key r.scope.scope_id r.request_id)
          (repository_key s.scope.scope_id s.request_id)
        ≡ false
      → Commutes r s m
  unfolding register_stored check_context
  register_stored-commute r s m apart unrelated =
      let j = repository_key r.scope.scope_id r.repository_id in
      let k = repository_key s.scope.scope_id s.repository_id in
      let p = repository_key r.scope.scope_id r.request_id in
      let q = repository_key s.scope.scope_id s.request_id in
      let f = registration_fingerprint r in
      let g = registration_fingerprint s in
      let made = registered u sha256 now r in
      let other = registered u sha256 now s in
      let c = decision j p f made m in
      let d = decision k q g other m in
      let behind = attempt_behind j k p q f g made other apart unrelated m c in
      let before =
        attempt_behind k j q p g f other made (text_eq-flip j k apart) (text_eq-flip p q unrelated)
          m d in
      (
        ap (λ e. e.0) behind ∙ keep_repository-outcome k q g _ m d,
        ap (λ e. e.0) before ∙ keep_repository-outcome j p f _ m c,
        ap (λ e. contents e.1) behind
            ∙ (Quot.sound (keep_repository-Alike j k p q f g apart unrelated m c d)
                ∙ ap (λ e. contents e.1) (sym before)),
      )
