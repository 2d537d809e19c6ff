-- ===== src/Service/Users/Lifecycle.antt =====
-- What HandleUserDeleted and HandleUserBanned of order_service.go leave of a user's orders, and which
-- events they announce.
use store_order.Base.{
  if◌then◌else◌, ◌<>◌, ◌<◌, String, ℕ, ◌≡◌, ◌≤◌, refl, sym, ◌∙◌, ap, subst, List, select, is_empty,
  Result, ok, wrapped-ok, continue-ok, Bool-cases, inl, inr, pos, trim_space, length, Memᴰ, arith,
  some,
}
use store_order.Schema.{Time, OrderModel, pending_payment}
use store_order.Runtime.{Runtime, Draw}
use store_order.Prisma.{Prisma, NewOutboxEvent}
use store_order.Prisma.Tables.{PrismaLaws, Tables}
use store_order.Repository.{OutboxCreateInput}
use store_order.Repository.Orders.Loops.{asked_each}
use store_order.Repository.Orders.Cleanup.{
  IsCleanedUp, anonymized, banned, anonymize-IsCleanedUp, cancel_unpaid-IsCleanedUp,
}
use store_order.Service.Customer.Reads.{page-IsOwned, page-IsWhole}
use store_order.Service.Users.{
  anonymized_email, clean_up_deleted, handle_user_deleted, clean_up_banned, handle_user_banned,
}
use store_order.Service.Users.Announcements.{
  is_unpaid, Announce, given_ban_reason, cancellation_events-Announce,
}

-- The listed orders, whose cancellation is announced: stored orders of the user, and all of them, if
-- these are fewer than 1000, which are the most that are listed.
abbrev pub AreListed : Tables → String → List OrderModel → Type 0
AreListed t user os =
    (length os ≤ 1000)
    × ((o : OrderModel) → Memᴰ o os → (o.user_id ≡ user) × (t.order o.id ≡ some o))
    × (length os < 1000 → (o : OrderModel) → t.order o.id ≡ some o → o.user_id ≡ user → Memᴰ o os)

IsCleanedUp-subst :
    {P : OrderModel → Type 0} {f : Time → OrderModel → OrderModel} {asked : List NewOutboxEvent}
    {t t' u u' : Tables}
    → t ≡ u
    → t' ≡ u'
    → IsCleanedUp P f asked t t'
    → IsCleanedUp P f asked u u'
IsCleanedUp-subst {P} {f} {asked} {t} {t'} {u} {u'} same same' c =
    subst (λ x. IsCleanedUp P f asked x u') same (subst (λ x. IsCleanedUp P f asked t x) same' c)

-- What becomes of the tables when the user is deleted: every order of the user is anonymized and,
-- where it was unpaid, cancelled, no other row changes, and the outbox grows by the cancellation
-- events of the unpaid ones among the listed orders.
abbrev pub DeletesUser : Runtime → String → Tables → Tables → Type 0
DeletesUser rt user t t' =
    (os : List OrderModel) × (es : List OutboxCreateInput) × AreListed t user os
    × Announce rt "User account deleted" (select is_unpaid os) es
    × IsCleanedUp (λ o. o.user_id ≡ user) (anonymized (anonymized_email user)) (asked_each es) t t'

-- The same for a ban: every unpaid order is cancelled and its payment link cleared, no other row
-- changes.
abbrev pub BansUser : Runtime → String → String → Tables → Tables → Type 0
BansUser rt user reason t t' =
    (os : List OrderModel) × (es : List OutboxCreateInput) × AreListed t user os
    × Announce rt
        (if is_empty (trim_space reason)
          then "User account banned"
          else "User account banned: " <> trim_space reason)
        (select is_unpaid os) es
    × IsCleanedUp (λ o. (o.user_id ≡ user) × (o.status ≡ pending_payment)) banned (asked_each es) t
        t'

module _ (p : Prisma) (rt : Runtime) (l : PrismaLaws p) (draws : ℕ → Draw) (user_id : String)
    (s : p.State) where
  open l use {tables}

  clean_up_deleted-done :
      (user : String)
      → (clean_up_deleted p rt draws user s).0 ≡ ok tt
      → DeletesUser rt user (tables s) (tables (clean_up_deleted p rt draws user s).1)
  unfolding clean_up_deleted
  clean_up_deleted-done user h =
      let ((os, total), listed, h, same) = continue-ok _ _ _ h in
      let (es, announced, h, same') = continue-ok _ _ _ h in
      let (bound, owned, kept) =
        page-IsOwned p rt l user s (pos 1000) (pos 0) (wrapped-ok _ _ listed) in
      let cleaned =
        anonymize-IsCleanedUp p l user es _ (anonymized_email user) (wrapped-ok _ _ h) in
      (
        os,
        es,
        (bound, owned, page-IsWhole p rt l user s (pos 1000) (wrapped-ok _ _ listed)),
        cancellation_events-Announce rt draws _ _ os refl announced,
        IsCleanedUp-subst kept (sym (ap tables (same ∙ same'))) cleaned,
      )

  -- If the clean-up for a deleted user returns no error, then every order of the user, named without
  -- the spaces around the identifier, has been anonymized and, where it was unpaid, cancelled, no
  -- other row has changed, and the outbox has grown by one cancellation event for each unpaid order
  -- of a list, in its order: the list has at most 1000 stored orders of the user, and all of them
  -- unless it has 1000.
  pub handle_user_deleted-done :
      (handle_user_deleted p rt draws user_id s).0 ≡ ok tt
      → DeletesUser rt
          (trim_space user_id)
          (tables s)
          (tables (handle_user_deleted p rt draws user_id s).1)
  unfolding handle_user_deleted
  handle_user_deleted-done h = elim (Bool-cases (is_empty (trim_space user_id))) [
    | inl blank ↦ absurd (ground arith)
    | inr named ↦
        let user = trim_space user_id in
        let same : handle_user_deleted p rt draws user_id s ≡ clean_up_deleted p rt draws user s =
          rw (named, handle_user_deleted) refl in
        let (os, es, listed, announced, cleaned) =
          clean_up_deleted-done user
            (ap (λ (x : Result (Unit {0}) × p.State). x.0) (sym same) ∙ h) in
        (
          os,
          es,
          listed,
          announced,
          IsCleanedUp-subst refl (ap (λ (x : Result (Unit {0}) × p.State). tables x.1) (sym same))
              cleaned,
        )
  ]

  clean_up_banned-done :
      (user reason : String)
      → (clean_up_banned p rt draws user reason s).0 ≡ ok tt
      → BansUser rt user reason (tables s) (tables (clean_up_banned p rt draws user reason s).1)
  unfolding clean_up_banned
  clean_up_banned-done user reason h =
      let ((os, total), listed, h, same) = continue-ok _ _ _ h in
      let (es, announced, h, same') = continue-ok _ _ _ h in
      let (bound, owned, kept) =
        page-IsOwned p rt l user s (pos 1000) (pos 0) (wrapped-ok _ _ listed) in
      let cleaned = cancel_unpaid-IsCleanedUp p l user es _ (wrapped-ok _ _ h) in
      (
        os,
        es,
        (bound, owned, page-IsWhole p rt l user s (pos 1000) (wrapped-ok _ _ listed)),
        cancellation_events-Announce rt draws _ _ os (given_ban_reason reason) announced,
        IsCleanedUp-subst kept (sym (ap tables (same ∙ same'))) cleaned,
      )

  -- If the clean-up for a banned user returns no error, then every unpaid order of the user has been
  -- cancelled and its payment link cleared, no other row has changed, so that the personal data of
  -- all orders is kept, and the outbox has grown by one cancellation event, with the reason of the
  -- ban, for each unpaid order of a list of at most 1000 stored orders of the user, which has all of
  -- them unless it has 1000.
  pub handle_user_banned-done :
      (reason : String)
      → (handle_user_banned p rt draws user_id reason s).0 ≡ ok tt
      → BansUser rt
          (trim_space user_id)
          reason
          (tables s)
          (tables (handle_user_banned p rt draws user_id reason s).1)
  unfolding handle_user_banned
  handle_user_banned-done reason h = elim (Bool-cases (is_empty (trim_space user_id))) [
    | inl blank ↦ absurd (ground arith)
    | inr named ↦
        let user = trim_space user_id in
        let same : handle_user_banned p rt draws user_id reason s
            ≡ clean_up_banned p rt draws user reason s =
          rw (named, handle_user_banned) refl in
        let (os, es, listed, announced, cleaned) =
          clean_up_banned-done user reason
            (ap (λ (x : Result (Unit {0}) × p.State). x.0) (sym same) ∙ h) in
        (
          os,
          es,
          listed,
          announced,
          IsCleanedUp-subst refl (ap (λ (x : Result (Unit {0}) × p.State). tables x.1) (sym same))
              cleaned,
        )
  ]
