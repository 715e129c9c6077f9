-- ===== src/Session/Device/Cache.antt =====
-- The cache of responses in include/ReliableSession.hpp: what it evicts, and its bound.
use florid_usb_protocols.Prelude.{
  ℕ, zero, suc, ◌-◌, ◌≤◌, ◌<◌, ◌≡◌, refl, ap, sym, ◌∙◌, inl, inr, ◌⊎◌, true, false, none, some,
  List, [], ◌∷◌, ◌++◌, arith, ltb, if◌then◌else◌, Bool-cases, length, take, drop, length-append,
  ltb→lt, length-drop, ==_refl,
}
use florid_usb_protocols.Prelude.Eq.{nat_regular}
use florid_usb_protocols.Platform.{Platform, IsPlatform}
use florid_usb_protocols.IdRing.{DedupKey, compose_dedup_key, contains}
use florid_usb_protocols.IdRing.Window.{contains-append}
use florid_usb_protocols.Session.{Session}
use florid_usb_protocols.Session.Entry.{CompletedResponse, completed_response}
use florid_usb_protocols.Session.Device.{shrink, cache_response}

-- The order holds no more keys than the capacity, and each cached key is in it.
pub record IsCacheValid (P : Platform) (s : Session P) : Type 0 where
  pub bounded : length s.completed_order ≤ s.config.device_cache_capacity
  pub ordered :
      (k : ℕ) (c : CompletedResponse)
      → P.find CompletedResponse k s.completed_cache ≡ some c
      → contains s.completed_order k ≡ true

module _ (P : Platform) (L : IsPlatform P) (capacity : ℕ) where
  -- Whether the loop goes on, and how many keys are too many.
  excess :
      (n : ℕ)
      → ((ltb capacity (suc n) ≡ true) × (suc n - capacity ≡ suc (n - capacity)))
        ⊎ ((ltb capacity (suc n) ≡ false) × (suc n - capacity ≡ 0))
  excess n = elim (Bool-cases (ltb capacity (suc n))) [
    | inl over ↦ inl (over, omega (arith, ltb→lt capacity (suc n) over))
    | inr fits ↦ inr (fits, ground arith)
  ]

  -- With a map that behaves as documented, the loop of `shrink_device_cache` ends with the oldest
  -- keys taken from the front of the order, as many as it is longer than the capacity.
  pub order-shrink :
      (order : List DedupKey) (cache : P.Map CompletedResponse)
      → (shrink P capacity order cache).0 ≡ drop (length order - capacity) order
  unfolding shrink
  order-shrink [] cache = ap (λ n. drop n []) (let e : 0 ≡ 0 - capacity = omega arith in e)
  order-shrink (k ∷ order) cache = elim (excess (length order)) [
    | inl (over, n) ↦ rw over (order-shrink order _ ∙ ap (λ i. drop i (k ∷ order)) (sym n))
    | inr (fits, n) ↦ rw fits (ap (λ i. drop i (k ∷ order)) (sym n))
  ]

  -- With a map that behaves as documented, `shrink_device_cache` erases from the cache exactly the
  -- oldest keys of the order, as many as the order is longer than the capacity.
  pub find-shrink :
      (order : List DedupKey) (cache : P.Map CompletedResponse) (k : ℕ)
      → P.find CompletedResponse k (shrink P capacity order cache).1 ≡ (
          if contains (take (length order - capacity) order) k
          then none
          else P.find CompletedResponse k cache)
  unfolding shrink contains
  find-shrink [] cache k =
      ap (λ i. if contains (take i []) k then none else P.find CompletedResponse k cache)
        (let e : 0 ≡ 0 - capacity = omega arith in e)
  find-shrink (x ∷ order) cache k = elim (excess (length order)) [
    | inl (over, n) ↦
        rw (over, n)
          (find-shrink order (P.erase CompletedResponse x cache) k
            ∙ ground (arith, L.find-erase CompletedResponse k x cache))
    | inr (fits, n) ↦ rw (fits, n) refl
  ]

module _ (P : Platform) (L : IsPlatform P) where
  contains-take-drop :
      (n : ℕ) (xs : List ℕ) (k : ℕ)
      → contains xs k ≡ true
      → contains (take n xs) k ≡ false
      → contains (drop n xs) k ≡ true
  unfolding contains
  contains-take-drop zero xs k h g = h
  contains-take-drop (suc n) [] k h g = h
  contains-take-drop (suc n) (x ∷ xs) k h g = ground (arith, contains-take-drop n xs k)

  pub contains-take-append :
      (n : ℕ) (xs ys : List ℕ) (k : ℕ)
      → n ≤ length xs
      → contains xs k ≡ false
      → contains (take n (xs ++ ys)) k ≡ false
  unfolding contains
  contains-take-append zero xs ys k h g = refl
  contains-take-append (suc n) [] ys k h g = absurd (omega arith)
  contains-take-append (suc n) (x ∷ xs) ys k h g =
      ground (arith, contains-take-append n xs ys k (omega arith))

  -- With a map that behaves as documented, `cache_response` keeps a valid cache valid: the order of
  -- its keys is no longer than its capacity, and each cached key is in the order.
  pub cache_response-IsCacheValid :
      (s : Session P) (cmd tx rsp : ℕ) (bytes : List ℕ)
      → IsCacheValid P s
      → IsCacheValid P (cache_response P s cmd tx rsp bytes)
  unfolding cache_response
  cache_response-IsCacheValid s cmd tx rsp bytes v = record {
    bounded =
        rw (order-shrink P L capacity order cache)
          (omega (arith, length-drop (length order - capacity) order));
    ordered = λ k c h. rw (order-shrink P L capacity order cache) (
        contains-take-drop (length order - capacity) order k (entered k (survives k c h).1)
          (survives k c h).0);
  }
    where
      capacity : ℕ
      capacity = s.config.device_cache_capacity

      order : List DedupKey
      order = s.completed_order ++ (compose_dedup_key cmd tx ∷ [])

      cache : P.Map CompletedResponse
      cache =
          P.insert_or_assign CompletedResponse (compose_dedup_key cmd tx)
            (completed_response rsp bytes) s.completed_cache

      survives :
          (k : ℕ) (c : CompletedResponse)
          → P.find CompletedResponse k (shrink P capacity order cache).1 ≡ some c
          → (contains (take (length order - capacity) order) k ≡ false)
            × (P.find CompletedResponse k cache ≡ some c)
      survives k c h = ground (arith, h, find-shrink P L capacity order cache k)

      entered :
          (k : ℕ) {c : CompletedResponse}
          → P.find CompletedResponse k cache ≡ some c
          → contains order k ≡ true
      entered k {c} h =
          contains-append s.completed_order (compose_dedup_key cmd tx ∷ []) k
          ∙ unfold contains in
            ground (
              arith,
              h,
              L.find-insert CompletedResponse k (compose_dedup_key cmd tx)
                  (completed_response rsp bytes) s.completed_cache,
              v.ordered k c,
            )

  -- A response that is cached for a request with no older response in the order is found there.
  pub find-cache_response :
      (s : Session P) (cmd tx rsp : ℕ) (bytes : List ℕ)
      → IsCacheValid P s
      → 0 < s.config.device_cache_capacity
      → contains s.completed_order (compose_dedup_key cmd tx) ≡ false
      → P.find CompletedResponse
          (compose_dedup_key cmd tx)
          (cache_response P s cmd tx rsp bytes).completed_cache
        ≡ some (completed_response rsp bytes)
  unfolding cache_response
  find-cache_response s cmd tx rsp bytes v pos new =
      find-shrink P L s.config.device_cache_capacity
        (s.completed_order ++ (compose_dedup_key cmd tx ∷ []))
        (P.insert_or_assign CompletedResponse (compose_dedup_key cmd tx)
          (completed_response rsp bytes) s.completed_cache)
        (compose_dedup_key cmd tx)
      ∙ rw
          (contains-take-append
            (length (s.completed_order ++ (compose_dedup_key cmd tx ∷ []))
              - s.config.device_cache_capacity)
            s.completed_order (compose_dedup_key cmd tx ∷ []) (compose_dedup_key cmd tx)
            (omega
              (arith, v.bounded, length-append s.completed_order (compose_dedup_key cmd tx ∷ [])))
            new)
          (L.find-insert CompletedResponse (compose_dedup_key cmd tx) (compose_dedup_key cmd tx) _
              s.completed_cache
            ∙ rw (==_refl (compose_dedup_key cmd tx)) refl)
