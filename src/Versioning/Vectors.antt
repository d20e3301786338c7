-- ===== src/Versioning/Vectors.antt =====
-- What reading a vector gives after each operation of packages/core/src/domain/versioning.
use engr_serverless_pm.Base.{
  ℕ, max, String, ◌≡◌, refl, ◌∙◌, inl, inr, false, ◌||◌, List, [], ◌∷◌, ◌++◌, arith, ◌==◌, eq_iff,
  if◌then◌else◌, Bool-cases, Distinct, contains, contains-append, set_of, contains-set_of,
}
use engr_serverless_pm.Versioning.{
  VersionVector, keys, get, set, next, increment_version_vector, merge_from, merge_version_vectors,
}

pub get-set :
    (v : VersionVector) (d : String) (n : ℕ) (x : String)
    → get (set v d n) x ≡ (if d == x then n else get v x)
unfolding get set
get-set [] d n x = refl
get-set ((k, m) ∷ v) d n x = ground (arith, eq_iff k d, eq_iff k x, eq_iff d x, get-set v d n x)

pub get_of_absent : (v : VersionVector) (d : String) → contains (keys v) d ≡ false → get v d ≡ 0
unfolding get
get_of_absent [] d h = refl
get_of_absent ((k, n) ∷ v) d h = ground (arith, get_of_absent v d)

-- Counting moves the device's own count to the next, and no other.
pub get-increment :
    (v : VersionVector) (d x : String)
    → get (increment_version_vector v d) x ≡ (if d == x then next (get v d) else get v x)
unfolding increment_version_vector
get-increment v d x = get-set v d (next (get v d)) x

contains-set :
    (v : VersionVector) (d : String) (n : ℕ) (x : String)
    → contains (keys (set v d n)) x ≡ (contains (keys v) x || (d == x))
unfolding set
contains-set [] d n x = ground arith
contains-set ((k, m) ∷ v) d n x = elim (Bool-cases (k == d)) [
  | inl e ↦ rw e (ground (arith, eq_iff k d, eq_iff k x, eq_iff d x))
  | inr e ↦ rw e (ground (arith, contains-set v d n x))
]

pub set-Distinct :
    (v : VersionVector) (d : String) (n : ℕ) → Distinct (keys v) → Distinct (keys (set v d n))
unfolding set
set-Distinct [] d n h = (refl, tt)
set-Distinct ((k, m) ∷ v) d n (new, h) = elim (Bool-cases (k == d)) [
  | inl e ↦ rw e (new, h)
  | inr e ↦
      rw e (contains-set v d n k ∙ ground (arith, eq_iff d k, eq_iff k d), set-Distinct v d n h)
]

get-merge_from :
    (merged local remote : VersionVector) (ds : List String) (x : String)
    → get (merge_from merged local remote ds) x
      ≡ (if contains ds x then max (get local x) (get remote x) else get merged x)
unfolding merge_from
get-merge_from merged local remote [] x = refl
get-merge_from merged local remote (d ∷ ds) x =
    get-merge_from (set merged d (max (get local d) (get remote d))) local remote ds x
    ∙ ground (arith, get-set merged d (max (get local d) (get remote d)) x, eq_iff d x)

-- A merged vector holds the larger count of each device, a missing one counted as 0.
pub get-merge :
    (local remote : VersionVector) (x : String)
    → get (merge_version_vectors local remote) x ≡ max (get local x) (get remote x)
unfolding merge_version_vectors
get-merge local remote x =
    get-merge_from [] local remote (set_of (keys local ++ keys remote)) x
    ∙ rw
        (
          contains-set_of (keys local ++ keys remote) x,
          contains-append (keys local) (keys remote) x,
        )
        (ground (arith, get_of_absent local x, get_of_absent remote x, get_nil x))
  where
    get_nil : (y : String) → get [] y ≡ 0
    get_nil y = get_of_absent [] y refl

merge_from-Distinct :
    (merged local remote : VersionVector) (ds : List String)
    → Distinct (keys merged)
    → Distinct (keys (merge_from merged local remote ds))
unfolding merge_from
merge_from-Distinct merged local remote [] h = h
merge_from-Distinct merged local remote (d ∷ ds) h =
    merge_from-Distinct (set merged d (max (get local d) (get remote d))) local remote ds
      (set-Distinct merged d (max (get local d) (get remote d)) h)

pub increment-Distinct :
    (v : VersionVector) (d : String)
    → Distinct (keys v)
    → Distinct (keys (increment_version_vector v d))
unfolding increment_version_vector
increment-Distinct v d h = set-Distinct v d (next (get v d)) h

pub merge-Distinct :
    (local remote : VersionVector) → Distinct (keys (merge_version_vectors local remote))
unfolding merge_version_vectors
merge-Distinct local remote =
    merge_from-Distinct [] local remote (set_of (keys local ++ keys remote)) tt
