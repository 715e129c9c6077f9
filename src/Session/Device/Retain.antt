-- ===== src/Session/Device/Retain.antt =====
-- How long the cache of include/ReliableSession.hpp keeps a response while other requests come in
-- and are answered.
use florid_usb_protocols.Prelude.{
  ℕ, zero, suc, ◌+◌, ◌-◌, ◌≤◌, ◌<◌, ◌≡◌, refl, ap, ◌∙◌, false, none, some, List, [], ◌∷◌, ◌++◌,
  append_assoc, arith, length, drop, take, length-append, length-drop, ◌==◌, if◌then◌else◌, subst,
}
use florid_usb_protocols.Prelude.Eq.{nat_regular}
use florid_usb_protocols.Platform.{Platform, IsPlatform}
use florid_usb_protocols.IdRing.{DedupKey, compose_dedup_key, contains}
use florid_usb_protocols.Session.{Session}
use florid_usb_protocols.Session.Entry.{CompletedResponse, completed_response}
use florid_usb_protocols.Session.Device.{on_request, cache_response}
use florid_usb_protocols.Session.Device.Cache.{
  IsCacheValid, order-shrink, find-shrink, contains-take-append, cache_response-IsCacheValid,
  find-cache_response,
}
use florid_usb_protocols.Session.Device.Replay.{on_request_frame}

-- What the device does for others: a request comes in, or the response to one is cached.
pub data Traffic : Type 0 where
  asked : (cmd tx : ℕ) → Traffic
  answered : (cmd tx rsp : ℕ) (bytes : List ℕ) → Traffic

-- The keys of the requests that come in.
abbrev pub asked_keys : List Traffic → List DedupKey
asked_keys [] = []
asked_keys (asked cmd tx ∷ rest) = compose_dedup_key cmd tx ∷ asked_keys rest
asked_keys (answered cmd tx rsp bytes ∷ rest) = asked_keys rest

-- The keys of the responses that are cached.
abbrev pub answered_keys : List Traffic → List DedupKey
answered_keys [] = []
answered_keys (asked cmd tx ∷ rest) = answered_keys rest
answered_keys (answered cmd tx rsp bytes ∷ rest) = compose_dedup_key cmd tx ∷ answered_keys rest

-- The first keys of a list that does not hold a key do not hold it.
contains-drop-absent :
    (n : ℕ) (xs : List ℕ) (k : ℕ) → contains xs k ≡ false → contains (drop n xs) k ≡ false
unfolding contains
contains-drop-absent zero xs k h = h
contains-drop-absent (suc n) [] k h = h
contains-drop-absent (suc n) (x ∷ xs) k h = ground (arith, h, contains-drop-absent n xs k)

drop-append : (n : ℕ) (xs ys : List ℕ) → n ≤ length xs → drop n (xs ++ ys) ≡ drop n xs ++ ys
drop-append zero xs ys h = refl
drop-append (suc n) [] ys h = absurd (omega arith)
drop-append (suc n) (x ∷ xs) ys h = drop-append n xs ys (omega arith)

other_key :
    (k : ℕ) (ks : List ℕ) (key : ℕ)
    → contains (k ∷ ks) key ≡ false
    → ((k == key) ≡ false) × (contains ks key ≡ false)
unfolding contains
other_key k ks key h = ground (arith, h)

module _ (P : Platform) where
  unfoldable pub serve : Session P → List Traffic → Session P
  serve s [] = s
  serve s (asked cmd tx ∷ rest) = serve (on_request P s cmd tx).1 rest
  serve s (answered cmd tx rsp bytes ∷ rest) = serve (cache_response P s cmd tx rsp bytes) rest

  -- The response `c` is cached under `key`, which stands once in the order, before the keys of the
  -- `m` responses that were cached after it.
  pub record IsKept (key : DedupKey) (c : CompletedResponse) (m : ℕ) (s : Session P) : Type 0 where
    pub older : List DedupKey
    pub newer : List DedupKey
    pub order : s.completed_order ≡ older ++ (key ∷ newer)
    pub alone : contains older key ≡ false
    pub count : length newer ≡ m
    pub bounded : length s.completed_order ≤ s.config.device_cache_capacity
    pub found : P.find CompletedResponse key s.completed_cache ≡ some c

  module _ (L : IsPlatform P) where
    cache_response-IsKept :
        (key : DedupKey) (c : CompletedResponse) (m : ℕ) (s : Session P)
        → (cmd tx rsp : ℕ) (bytes : List ℕ) → IsKept key c m s
        → (compose_dedup_key cmd tx == key) ≡ false
        → suc (suc m) ≤ s.config.device_cache_capacity
        → IsKept key c (suc m) (cache_response P s cmd tx rsp bytes)
    unfolding cache_response
    cache_response-IsKept key c m s cmd tx rsp bytes v other room = record {
      older = drop n v.older;
      newer = v.newer ++ (k ∷ []);
      order =
          order-shrink P L capacity order cache
          ∙ ap (drop n) whole
          ∙ drop-append n v.older (key ∷ (v.newer ++ (k ∷ []))) few;
      alone = contains-drop-absent n v.older key v.alone;
      count = omega (arith, v.count, length-append v.newer (k ∷ []));
      bounded = cache_bounded;
      found =
          find-shrink P L capacity order cache key
          ∙ ap (λ xs. if contains (take n xs) key then none else P.find CompletedResponse key cache)
              whole
          ∙ rw (contains-take-append P L n v.older (key ∷ (v.newer ++ (k ∷ []))) key few v.alone) (
              L.find-insert CompletedResponse key k (completed_response rsp bytes) s.completed_cache
              ∙ rw other v.found);
    }
      where
        capacity : ℕ
        capacity = s.config.device_cache_capacity

        k : DedupKey
        k = compose_dedup_key cmd tx

        order : List DedupKey
        order = s.completed_order ++ (k ∷ [])

        n : ℕ
        n = length order - capacity

        cache : P.Map CompletedResponse
        cache =
            P.insert_or_assign CompletedResponse k (completed_response rsp bytes) s.completed_cache

        whole : order ≡ v.older ++ (key ∷ (v.newer ++ (k ∷ [])))
        whole = ap (λ xs. xs ++ (k ∷ [])) v.order ∙ append_assoc v.older (key ∷ v.newer) (k ∷ [])

        few : n ≤ length v.older
        few = omega (
          arith,
          v.count,
          room,
          ap (λ (xs : List ℕ). length xs) whole,
          length-append v.older (key ∷ (v.newer ++ (k ∷ []))),
          length-append v.newer (k ∷ []),
        )

        cache_bounded : length (cache_response P s cmd tx rsp bytes).completed_order ≤ capacity
        cache_bounded =
            rw (order-shrink P L capacity order cache)
              (omega (arith, length-drop (length order - capacity) order))

    -- The response that has just been cached.
    pub fresh-IsKept :
        (s : Session P) (cmd tx rsp : ℕ) (bytes : List ℕ)
        → IsCacheValid P s
        → 0 < s.config.device_cache_capacity
        → contains s.completed_order (compose_dedup_key cmd tx) ≡ false
        → IsKept
            (compose_dedup_key cmd tx)
            (completed_response rsp bytes)
            0
            (cache_response P s cmd tx rsp bytes)
    unfolding cache_response
    fresh-IsKept s cmd tx rsp bytes v pos absent = record {
      older = drop n s.completed_order;
      newer = [];
      order =
          order-shrink P L s.config.device_cache_capacity (s.completed_order ++ (k ∷ [])) _
          ∙ drop-append n s.completed_order (k ∷ [])
              (omega (arith, v.bounded, length-append s.completed_order (k ∷ [])));
      alone = contains-drop-absent n s.completed_order k absent;
      count = omega arith;
      bounded = (cache_response-IsCacheValid P L s cmd tx rsp bytes v).bounded;
      found = find-cache_response P L s cmd tx rsp bytes v pos absent;
    }
      where
        k : DedupKey
        k = compose_dedup_key cmd tx

        n : ℕ
        n = length (s.completed_order ++ (k ∷ [])) - s.config.device_cache_capacity

    pub serve-IsKept :
        (key : DedupKey) (c : CompletedResponse) (others : List Traffic) (m : ℕ) (s : Session P)
        → IsKept key c m s
        → contains (answered_keys others) key ≡ false
        → suc m + length (answered_keys others) ≤ s.config.device_cache_capacity
        → IsKept key c (m + length (answered_keys others)) (serve s others)
    unfolding serve
    serve-IsKept key c [] m s v other room =
        subst (λ i. IsKept key c i s) (let e : m ≡ m + 0 = omega arith in e) v
    serve-IsKept key c (asked cmd tx ∷ rest) m s v other room = rw (on_request_frame P s cmd tx) (
        serve-IsKept key c rest m _
          (record {
            older = v.older;
            newer = v.newer;
            order = v.order;
            alone = v.alone;
            count = v.count;
            bounded = v.bounded;
            found = v.found;
          })
          other room)
    serve-IsKept key c (answered cmd tx rsp bytes ∷ rest) m s v other room =
        let apart = other_key (compose_dedup_key cmd tx) (answered_keys rest) key other in
        subst (λ i. IsKept key c i (serve (cache_response P s cmd tx rsp bytes) rest))
          (let e : suc m + length (answered_keys rest) ≡ m + suc (length (answered_keys rest)) =
              omega arith in
            e)
          (serve-IsKept key c rest (suc m) (cache_response P s cmd tx rsp bytes)
            (cache_response-IsKept key c m s cmd tx rsp bytes v apart.0 (omega arith)) apart.1
            (unfold cache_response in omega arith))
