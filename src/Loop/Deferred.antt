-- ===== src/Loop/Deferred.antt =====
-- processDeferredDeletes() of src/EventDispatcherDefault.cpp: its rounds and its deliveries.
use qobject_mimic.Base.{
  ℕ, zero, suc, ◌<◌, List, [], ◌∷◌, none, some, Bool, true, false, ◌≡◌, refl, foldl, any, arith,
  contains, keep_if, is_empty, Option-cases, inl, inr, subst,
}
use qobject_mimic.Dispatcher.{EventPair, is_deferred_pair, take_deferred_deletes}
use qobject_mimic.Loop.{
  Host, Pass, delete_one, delete_round, delete_rounds, process_deferred_deletes,
}

keep_if_none {ℓ} :
    {A : Type ℓ} (p : A → Bool) (xs : List A) → is_empty (keep_if p xs) ≡ true → any p xs ≡ false
keep_if_none p [] h = refl
keep_if_none p (x ∷ xs) h = ground (arith, keep_if_none p xs)

module _ {W : Type 0} (h : Host W) where
  pub break_clean :
      (p : Pass W)
      → delete_round h p ≡ none
      → any is_deferred_pair (h.dispatcher p.world).event_queue ≡ false
  unfolding delete_round take_deferred_deletes
  break_clean p e = ground (arith, keep_if_none is_deferred_pair (h.dispatcher p.world).event_queue)

  delete_rounds_total :
      (measure : W → ℕ)
      → ((p q : Pass W) → delete_round h p ≡ some q → measure q.world < measure p.world)
      → (fuel : ℕ) (p : Pass W) → measure p.world < fuel
      → (w : W) × (delete_rounds h fuel p ≡ some w)
        × (any is_deferred_pair (h.dispatcher w).event_queue ≡ false)
  unfolding delete_rounds
  delete_rounds_total measure falls zero p m = absurd (omega arith)
  delete_rounds_total measure falls (suc fuel) p m = elim (Option-cases (delete_round h p)) [
    | inl stop ↦ (p.world, rw (stop, delete_rounds), break_clean p stop)
    | inr (q, go) ↦
        rw (go, delete_rounds)
          (delete_rounds_total measure falls fuel q (omega (arith, falls p q go)))
  ]

  -- If each round that finds a deferred delete lowers some measure of the world, then with more
  -- rounds allowed than the measure processDeferredDeletes() ends, and the queue then holds no
  -- deferred delete.
  pub process_deferred_deletes_total :
      (measure : W → ℕ)
      → ((p q : Pass W) → delete_round h p ≡ some q → measure q.world < measure p.world)
      → (fuel : ℕ) (w : W) → measure w < fuel
      → (w' : W) × (process_deferred_deletes h fuel w ≡ some w')
        × (any is_deferred_pair (h.dispatcher w').event_queue ≡ false)
  unfolding process_deferred_deletes
  process_deferred_deletes_total measure falls fuel w m =
      delete_rounds_total measure falls fuel (record { world = w; deleted = []; processed = false })
        m

-- No address is listed twice.
abbrev pub Distinct : List ℕ → Type 0
Distinct [] = Unit {0}
Distinct (x ∷ xs) = (contains x xs ≡ false) × Distinct xs

-- The same program with the receiver of each delivery recorded, latest first.
unfoldable pub logged : {W : Type 0} → Host W → Host (W × List ℕ)
logged h = record {
  dispatcher = λ v. h.dispatcher v.0;
  set_dispatcher = λ d v. (h.set_dispatcher d v.0, v.1);
  now = λ v. h.now v.0;
  wait = λ ms v. (h.wait ms v.0, v.1);
  platform = λ v. (h.platform v.0, v.1);
  deliver = λ r e v. (h.deliver r e v.0, r ∷ v.1);
  free = λ e v. (h.free e v.0, v.1);
  dispatcher-set_dispatcher = λ d v. h.dispatcher-set_dispatcher d v.0;
}

module _ {W : Type 0} (h : Host W) where
  -- The set of deleted receivers is the record of the deliveries.
  abbrev Tracked : Pass (W × List ℕ) → Type 0
  Tracked p = (p.world.1 ≡ p.deleted) × Distinct p.deleted

  Tracked-delete_one :
      (p : Pass (W × List ℕ)) (ep : EventPair) → Tracked p → Tracked (delete_one (logged h) p ep)
  unfolding delete_one logged
  Tracked-delete_one p ep t = ground arith

  Tracked-deletes :
      (p : Pass (W × List ℕ)) (eps : List EventPair)
      → Tracked p
      → Tracked (foldl (delete_one (logged h)) p eps)
  Tracked-deletes p [] t = t
  Tracked-deletes p (ep ∷ eps) t =
      Tracked-deletes (delete_one (logged h) p ep) eps (Tracked-delete_one p ep t)

  -- The state in which a round starts to deliver, and what it delivers.
  abbrev opened : Pass (W × List ℕ) → Pass (W × List ℕ)
  opened p = record p {
    world =
        (logged h).set_dispatcher (take_deferred_deletes ((logged h).dispatcher p.world)).0 p.world;
  }

  abbrev doomed : Pass (W × List ℕ) → List EventPair
  doomed p = (take_deferred_deletes ((logged h).dispatcher p.world)).1

  round_some :
      (p q : Pass (W × List ℕ))
      → delete_round (logged h) p ≡ some q
      → foldl (delete_one (logged h)) (opened p) (doomed p) ≡ q
  unfolding delete_round
  round_some p q e = ground arith

  Tracked-opened : (p : Pass (W × List ℕ)) → Tracked p → Tracked (opened p)
  unfolding logged
  Tracked-opened p t = t

  Tracked-round :
      (p q : Pass (W × List ℕ)) → delete_round (logged h) p ≡ some q → Tracked p → Tracked q
  Tracked-round p q e t =
      subst Tracked (round_some p q e) (Tracked-deletes (opened p) (doomed p) (Tracked-opened p t))

  Tracked-rounds :
      (fuel : ℕ) (p : Pass (W × List ℕ)) (v : W × List ℕ)
      → Tracked p
      → delete_rounds (logged h) fuel p ≡ some v
      → Distinct v.1
  unfolding delete_rounds
  Tracked-rounds zero p v t e = ground arith
  Tracked-rounds (suc fuel) p v t e = elim (Option-cases (delete_round (logged h) p)) [
    | inl stop ↦ ended (rw (stop, delete_rounds) at e)
    | inr (q, go) ↦ Tracked-rounds fuel q v (Tracked-round p q go t) (rw (go, delete_rounds) at e)
  ]
    where
      ended : some p.world ≡ some v → Distinct v.1
      ended same = let world : p.world ≡ v = cc in subst (λ u. Distinct u.1) world (rw t.0 t.1)

  -- The receivers of the deliveries, if it returns.
  delivered-Distinct :
      (fuel : ℕ) (w : W) (v : W × List ℕ)
      → process_deferred_deletes (logged h) fuel (w, []) ≡ some v
      → Distinct v.1
  unfolding process_deferred_deletes
  delivered-Distinct fuel w v e =
      Tracked-rounds fuel (record { world = (w, []); deleted = []; processed = false }) v (refl, tt)
        e

  -- If each round that finds a deferred delete lowers some measure of the world, which counts the
  -- deliveries made as well if need be, then with more rounds allowed than the measure
  -- processDeferredDeletes() ends, having delivered to each receiver at most once over all its
  -- rounds, however often deleteLater() was called and whatever the destructors queue; and the queue
  -- then holds no deferred delete.
  pub process_deferred_deletes_once :
      (measure : W × List ℕ → ℕ)
      → ((p q : Pass (W × List ℕ))
          → delete_round (logged h) p ≡ some q
          → measure q.world < measure p.world)
      → (fuel : ℕ) (w : W) → measure (w, []) < fuel
      → (v : W × List ℕ) × (process_deferred_deletes (logged h) fuel (w, []) ≡ some v)
        × Distinct v.1
        × (any is_deferred_pair (h.dispatcher v.0).event_queue ≡ false)
  unfolding logged
  process_deferred_deletes_once measure falls fuel w m =
      let (v, ended, clean) =
        process_deferred_deletes_total (logged h) measure falls fuel (w, []) m in
      (v, ended, delivered-Distinct fuel w v ended, clean)
