-- ===== src/Client/Futures.antt =====
-- Which futures are pending, through every operation on the store.
use glide_for_redis.Common.{
  ℕ, zero, suc, ◌+◌, ◌≤◌, ◌<◌, ◌≡◌, refl, Bool, true, false, ◌&&◌, some, List, [], ◌∷◌, ◌++◌,
  length, get_elem?, set, ltb, ◌==◌, if◌then◌else◌, Bool-cases, inl, inr, length-append, length-set,
  arith,
}
use glide_for_redis.Exceptions.{PyException}
use glide_for_redis.Client.Callbacks.{
  Future, pending, failed, cancelled, Dict, dict_get, dict_set, dict_remove, dict_keys, dict_values,
  Callbacks, get_future, is_pending, cancel, fail_pending,
}
use glide_for_redis.Client.Slots.{occurrences}

abbrev pub is_done : {V : Type 0} → Future V → Bool
is_done pending = false
is_done _ = true

module _ {V : Type 0} where
  pub is_pending-append :
      (store : List (Future V)) (r : ℕ)
      → is_pending (store ++ pending ∷ []) r
        ≡ (if r == length store then true else is_pending store r)
  is_pending-append [] zero = refl
  is_pending-append [] (suc r) = ground arith
  is_pending-append (f ∷ store) zero = ground arith
  is_pending-append (f ∷ store) (suc r) = ground (arith, is_pending-append store r)

  pub is_pending-set :
      (store : List (Future V)) (ref r : ℕ) (f : Future V)
      → is_done f ≡ true
      → is_pending (set store ref f) r ≡ (if ref == r then false else is_pending store r)
  is_pending-set [] ref r f h = ground arith
  is_pending-set (g ∷ store) zero zero f h = ground arith
  is_pending-set (g ∷ store) zero (suc r) f h = ground arith
  is_pending-set (g ∷ store) (suc ref) zero f h = ground arith
  is_pending-set (g ∷ store) (suc ref) (suc r) f h = ground (arith, is_pending-set store ref r f h)

  pub get_elem?-set_pending :
      (store : List (Future V)) (ref r : ℕ) (f : Future V)
      → is_pending store ref ≡ true
      → get_elem? (set store ref f) r ≡ (if ref == r then some f else get_elem? store r)
  get_elem?-set_pending [] ref r f h = cc
  get_elem?-set_pending (g ∷ store) zero zero f h = refl
  get_elem?-set_pending (g ∷ store) zero (suc r) f h = ground arith
  get_elem?-set_pending (g ∷ store) (suc ref) zero f h = ground arith
  get_elem?-set_pending (g ∷ store) (suc ref) (suc r) f h =
      ground (arith, get_elem?-set_pending store ref r f h)

  -- `close` fails exactly the pending futures of the dictionary.
  pub fail_pending_lem :
      (e : PyException) (refs : List ℕ) (store : List (Future V)) (r : ℕ)
      → get_elem? (fail_pending e refs store) r ≡ (
          if is_pending store r && ltb 0 (occurrences r refs)
          then some (failed e)
          else get_elem? store r)
  unfolding fail_pending
  fail_pending_lem e [] store r = ground arith
  fail_pending_lem e (ref ∷ refs) store r = elim (Bool-cases (is_pending store ref)) [
    | inl p ↦ ground (
      arith,
      p,
      fail_pending_lem e refs (set store ref (failed e)) r,
      get_elem?-set_pending store ref r (failed e) p,
    )
    | inr n ↦ ground (arith, n, fail_pending_lem e refs store r)
  ]

values-dict_set :
    (r k ref : ℕ) (d : Dict)
    → occurrences k (dict_keys d) ≡ 0
    → occurrences r (dict_values (dict_set k ref d))
      ≡ occurrences r (dict_values d) + (if ref == r then 1 else 0)
unfolding dict_set
values-dict_set r k ref [] h = ground arith
values-dict_set r k ref ((i, r') ∷ d) h = ground (arith, values-dict_set r k ref d)

pub values-dict_remove :
    (r k ref : ℕ) (d : Dict)
    → dict_get k d ≡ some ref
    → occurrences r (dict_values d)
      ≡ occurrences r (dict_values (dict_remove k d)) + (if ref == r then 1 else 0)
unfolding dict_get dict_remove
values-dict_remove r k ref [] h = cc
values-dict_remove r k ref ((i, r') ∷ d) h = ground (arith, values-dict_remove r k ref d)

pub dict_get-dict_set :
    (j k ref : ℕ) (d : Dict)
    → dict_get j (dict_set k ref d) ≡ (if k == j then some ref else dict_get j d)
unfolding dict_get dict_set
dict_get-dict_set j k ref [] = refl
dict_get-dict_set j k ref ((i, r) ∷ d) = ground (arith, dict_get-dict_set j k ref d)

-- The futures in the dictionary exist and are in it once, and every pending future is in it.
pub record Tracked {V : Type 0} (c : Callbacks V) : Type 0 where
  pub valid : (r : ℕ) → 0 < occurrences r (dict_values c.available_futures) → r < length c.store
  pub once : (r : ℕ) → occurrences r (dict_values c.available_futures) ≤ 1
  pub covered :
      (r : ℕ) → is_pending c.store r ≡ true → 0 < occurrences r (dict_values c.available_futures)

module _ {V : Type 0} where
  pub get_future-Tracked :
      (i : ℕ) (c : Callbacks V)
      → occurrences i (dict_keys c.available_futures) ≡ 0
      → Tracked c
      → Tracked (get_future i c).0
  unfolding get_future
  get_future-Tracked i c fresh t = record {
    valid = λ r h. ground (
      arith,
      t.valid r,
      values-dict_set r i (length c.store) c.available_futures fresh,
      length-append c.store (pending ∷ []),
    );
    once = λ r. ground (
      arith,
      t.once r,
      t.valid r,
      values-dict_set r i (length c.store) c.available_futures fresh,
    );
    covered = λ r h. ground (
      arith,
      t.covered r,
      values-dict_set r i (length c.store) c.available_futures fresh,
      is_pending-append c.store r,
    );
  }

  -- A future that leaves the dictionary is given its outcome.
  pub complete-Tracked :
      (i ref : ℕ) (c : Callbacks V) (indexes : List ℕ) (f : Future V)
      → dict_get i c.available_futures ≡ some ref
      → is_done f ≡ true
      → Tracked c
      → Tracked (record c {
        available_futures = dict_remove i c.available_futures;
        available_callback_indexes = indexes;
        store = set c.store ref f;
      })
  complete-Tracked i ref c indexes f h d t = record {
    valid = λ r k. ground (
      arith,
      t.valid r,
      values-dict_remove r i ref c.available_futures h,
      length-set c.store ref f,
    );
    once = λ r. ground (arith, t.once r, values-dict_remove r i ref c.available_futures h);
    covered = λ r k. ground (
      arith,
      t.covered r,
      values-dict_remove r i ref c.available_futures h,
      is_pending-set c.store ref r f d,
    );
  }

  pub cancel-Tracked : (ref : ℕ) (c : Callbacks V) → Tracked c → Tracked (cancel ref c)
  unfolding cancel
  cancel-Tracked ref c t = elim (Bool-cases (is_pending c.store ref)) [
    | inl p ↦
        rw (p, cancel)
          (record {
            valid = λ r k. ground (arith, t.valid r, length-set c.store ref cancelled);
            once = t.once;
            covered =
                λ r k. ground (arith, t.covered r, is_pending-set c.store ref r cancelled refl);
          })
    | inr n ↦ rw (n, cancel) t
  ]
