-- ===== src/LifeCycle/Interleaving/Traces.antt =====
-- What no interleaving of calls of internal/service/order_service.go can do to a stored order.
use store_order.Base.{
  ℕ, zero, suc, String, ◌≡◌, refl, sym, ◌∙◌, subst, Option, none, some, List, [], ◌∷◌, Memᴰ, inl,
  inr, ◌⊎◌, Bool, Result, ok, err, Bool-cases, ◌||◌,
}
use store_order.Schema.{Float64, OrderModel, paid, cancelled}
use store_order.Runtime.{Runtime}
use store_order.Prisma.{Prisma, OrderKey}
use store_order.Prisma.Tables.{PrismaLaws}
use store_order.Prisma.Changes.{
  IsPreorder, Changes, Changes_refl, Changes_trans, Changes_weaken, find_order-Within,
}
use store_order.Product.{ItemOrderRequest, ValidatedItem}
use store_order.Midtrans.{
  SnapTransactionRequest, SnapResponse, verify_signature, determine_order_status,
}
use store_order.LifeCycle.{
  Permit, Permits, nothing, cancel_unpaid, move_to, Call, places, cancels, notifies, updates,
  simulates_success, simulates_cancel, simulates_expire, deletes_user, bans_user, permit_of,
  perform,
}
use store_order.LifeCycle.Rows.{Follows, Follows-IsPreorder, IsSameOrder, IsSameOrder-trans}
use store_order.LifeCycle.Calls.{cancel_late-Within}
use store_order.LifeCycle.Notices.{
  settle-Within, admin_found-Within, pay_found-Within, expire_found-Within,
}
use store_order.LifeCycle.Refinement.{perform-Follows, Pays, permit_of-paid, Permits-paid}
use store_order.LifeCycle.Interleaving.{
  InFlight, Step, whole, begins, resumes, calls_of, push, lookup_key, begin_at, go_on, resume, run,
}

module _ (p : Prisma) (rt : Runtime) (key : String) (dev : Bool)
    (products : List ItemOrderRequest → Result (List ValidatedItem × Float64))
    (snap : SnapTransactionRequest → Result SnapResponse) (l : PrismaLaws p) where
  open l use {tables}

  abbrev pub Paying : Call → Type 0
  Paying = Pays p rt key dev products snap l

  -- A stored order before and after some of these calls.
  abbrev pub Traced : List Call → OrderModel → OrderModel → Type 0
  Traced calls o o' =
      IsSameOrder o o'
      × (o'.status ≡ paid → (o.status ≡ paid) ⊎ ((call : Call) × Memᴰ call calls × Paying call))

  Traced-IsPreorder : (calls : List Call) → IsPreorder (Traced calls)
  Traced-IsPreorder calls = record {
    same = λ o. (((Follows-IsPreorder nothing).same o).0, λ e. inl e);
    after = λ a b c h k.
        (IsSameOrder-trans h.0 k.0, λ e. elim (k.1 e) [ inl e' ↦ h.1 e' | inr call ↦ inr call ]);
  }

  Follows-Traced :
      (calls : List Call) (q : Permit) (o o' : OrderModel)
      → (q ≡ move_to paid → (call : Call) × Memᴰ call calls × Paying call)
      → Follows q o o'
      → Traced calls o o'
  Follows-Traced calls q o o' pays (same, inl e) = (same, λ h. inl (sym e ∙ h))
  Follows-Traced calls q o o' pays (same, inr step) =
      (same, λ h. inr (pays (Permits-paid q o.status (subst (Permits q o.status) h step))))

  -- what the second part of a call may do, whatever has happened since the first
  abbrev late_permit : Call → Permit
  late_permit (cancels draw user id) = move_to cancelled
  late_permit (simulates_cancel draw id) = move_to cancelled
  late_permit call = permit_of rt key dev call

  late_permit-paid : (call : Call) → late_permit call ≡ move_to paid → Paying call
  late_permit-paid (cancels draw user id) h = absurd (cc)
  late_permit-paid (simulates_cancel draw id) h = absurd (cc)
  late_permit-paid (places draws user email req) h = absurd (cc)
  late_permit-paid (notifies draw now notif) h =
      permit_of-paid p rt key dev products snap l (notifies draw now notif) h
  late_permit-paid (updates draw id status courier receipt) h =
      permit_of-paid p rt key dev products snap l (updates draw id status courier receipt) h
  late_permit-paid (simulates_success draw short_id now id) h = tt
  late_permit-paid (simulates_expire draw id) h = absurd (cc)
  late_permit-paid (deletes_user draws user) h = absurd (cc)
  late_permit-paid (bans_user draws user reason) h = absurd (cc)

  nothing_done : (q : Permit) (s : p.State) → Changes (Follows q) (tables s) (tables s)
  nothing_done q s = Changes_refl (Follows q) (Follows-IsPreorder q) (tables s)

  go_on-Follows :
      (call : Call) (o : OrderModel) (s : p.State) (k : OrderKey)
      → lookup_key rt key dev call ≡ some k
      → Changes
          (Follows (late_permit call))
          (tables s)
          (tables (go_on rt key dev p products snap call o s))
  go_on-Follows (cancels draw user id) o s k e = cancel_late-Within p rt l draw user id o s
  go_on-Follows (notifies draw now notif) o s k e =
      elim (Bool-cases (dev || verify_signature rt key notif)) [
        | inl genuine ↦
            rw genuine
              (settle-Within p rt l key dev draw now notif (determine_order_status rt notif) o s)
        | inr forged ↦ absurd (none-ne-some (rw forged at e))
      ]
    where
      none-ne-some : {x : OrderKey} → ¬ (none ≡ some x)
      none-ne-some h = cc
  go_on-Follows (updates draw id status courier receipt) o s k e =
      admin_found-Within p rt l draw id status courier receipt o s
  go_on-Follows (simulates_success draw short_id now id) o s k e =
      pay_found-Within p rt l draw short_id now id o s
  go_on-Follows (simulates_cancel draw id) o s k e = cancel_late-Within p rt l draw "" id o s
  go_on-Follows (simulates_expire draw id) o s k e = expire_found-Within p rt l draw id o s
  go_on-Follows (places draws user email req) o s k e = nothing_done nothing s
  go_on-Follows (deletes_user draws user) o s k e = nothing_done cancel_unpaid s
  go_on-Follows (bans_user draws user reason) o s k e = nothing_done cancel_unpaid s

  module _ (calls : List Call) where
    abbrev Goes : p.State → p.State → Type 0
    Goes s s' = Changes (Traced calls) (tables s) (tables s')

    -- The calls that wait are of the schedule, and have looked up.
    abbrev AreTracked : List InFlight → Type 0
    AreTracked [] = Unit
    AreTracked (flight ∷ flights) =
        Memᴰ flight.call calls
        × ((k : OrderKey) × (lookup_key rt key dev flight.call ≡ some k))
        × AreTracked flights

    go_on-Goes :
        (call : Call) (o : OrderModel) (s : p.State) (k : OrderKey)
        → Memᴰ call calls
        → lookup_key rt key dev call ≡ some k
        → Goes s (go_on rt key dev p products snap call o s)
    go_on-Goes call o s k m e =
        Changes_weaken
          (λ a b.
            Follows-Traced calls (late_permit call) a b λ h. (call, m, late_permit-paid call h))
          (go_on-Follows call o s k e)

    perform-Goes :
        (call : Call) (s : p.State)
        → Memᴰ call calls
        → Goes s (perform rt key dev p products snap call s)
    perform-Goes call s m =
        Changes_weaken
          (λ a b.
            Follows-Traced calls (permit_of rt key dev call) a b
              λ h. (call, m, permit_of-paid p rt key dev products snap l call h))
          (perform-Follows p rt key dev products snap l call s)

    pushed-AreTracked :
        (call : Call) (k : OrderKey) (found : Result (Option OrderModel)) (flights : List InFlight)
        → Memᴰ call calls
        → lookup_key rt key dev call ≡ some k
        → AreTracked flights
        → AreTracked (push call found flights)
    pushed-AreTracked call k (ok (some o)) flights m e h = (m, (k, e), h)
    pushed-AreTracked call k (ok none) flights m e h = h
    pushed-AreTracked call k (err x) flights m e h = h

    begin_at-Goes :
        (call : Call) (found : Option OrderKey) (s : p.State) (flights : List InFlight)
        → Memᴰ call calls
        → lookup_key rt key dev call ≡ found
        → AreTracked flights
        → Goes s (begin_at rt key dev p products snap call found (s, flights)).0
          × AreTracked (begin_at rt key dev p products snap call found (s, flights)).1
    begin_at-Goes call none s flights m e h =
        (Changes_refl (Traced calls) (Traced-IsPreorder calls) (tables s), h)
    begin_at-Goes call (some k) s flights m e h = (
      find_order-Within (Traced calls) (Traced-IsPreorder calls) p l k s,
      pushed-AreTracked call k (p.find_order k s).0 flights m e h,
    )

    resume-Goes :
        (i : ℕ) (flights : List InFlight) (s : p.State)
        → AreTracked flights
        → Goes s (resume rt key dev p products snap i flights s).0
          × AreTracked (resume rt key dev p products snap i flights s).1
    resume-Goes i [] s h = (Changes_refl (Traced calls) (Traced-IsPreorder calls) (tables s), tt)
    resume-Goes zero (flight ∷ flights) s (m, (k, e), h) =
        (go_on-Goes flight.call flight.order s k m e, h)
    resume-Goes (suc i) (flight ∷ flights) s (m, looked, h) =
        let (goes, rest) = resume-Goes i flights s h in (goes, (m, looked, rest))

    run-Goes :
        (steps : List Step) (s : p.State) (flights : List InFlight)
        → ((call : Call) → Memᴰ call (calls_of steps) → Memᴰ call calls)
        → AreTracked flights
        → Goes s (run rt key dev p products snap steps (s, flights)).0
    unfolding run
    run-Goes [] s flights sub h = Changes_refl (Traced calls) (Traced-IsPreorder calls) (tables s)
    run-Goes (whole call ∷ steps) s flights sub h =
        Changes_trans (Traced calls) (Traced-IsPreorder calls)
          (perform-Goes call s (sub call (Memᴰ.head refl)))
          (run-Goes steps (perform rt key dev p products snap call s) flights
            (λ c m. sub c (Memᴰ.tail m)) h)
    run-Goes (begins call ∷ steps) s flights sub h =
        let begun =
          begin_at rt key dev p products snap call (lookup_key rt key dev call) (s, flights) in
        let (goes, tracked) =
          begin_at-Goes call (lookup_key rt key dev call) s flights (sub call (Memᴰ.head refl)) refl
            h in
        Changes_trans (Traced calls) (Traced-IsPreorder calls) goes
          (run-Goes steps begun.0 begun.1 (λ c m. sub c (Memᴰ.tail m)) tracked)
    run-Goes (resumes i ∷ steps) s flights sub h =
        let resumed = resume rt key dev p products snap i flights s in
        let (goes, tracked) = resume-Goes i flights s h in
        Changes_trans (Traced calls) (Traced-IsPreorder calls) goes
          (run-Goes steps resumed.0 resumed.1 sub tracked)

  -- Whatever the order in which calls run, also when others run between the lookup of a call and its
  -- change, every stored order stays stored, with its number, owner, total and time of creation,
  -- and is paid afterwards only if it was paid before or a call of the schedule pays: a simulated
  -- payment, or a notification of a settled or accepted payment, whose signature verifies unless
  -- the service is in development mode.
  pub run-Traced :
      (steps : List Step) (s : p.State)
      → Changes
          (Traced (calls_of steps))
          (tables s)
          (tables (run rt key dev p products snap steps (s, [])).0)
  run-Traced steps s = run-Goes (calls_of steps) steps s [] (λ call m. m) tt
