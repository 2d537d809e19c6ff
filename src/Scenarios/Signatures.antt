-- ===== src/Scenarios/Signatures.antt =====
-- internal/integration/midtrans/signature.go on a signed settlement.
use store_order.Base.{◌≡◌, ◌↔◌, true, trim_space}
use store_order.Schema.{paid}
use store_order.Runtime.{lower_text}
use store_order.Midtrans.{verify_signature, determine_order_status}
use store_order.Midtrans.Signatures.{
  verify_signature_iff, determine_order_status_iff, IsBlank, digest, Reports,
}
use store_order.Scenarios.Fixtures.{surroundings}
use store_order.Scenarios.Webhooks.{settlement}

verify_signature_iff_example : (verify_signature surroundings "key" settlement ≡ true) ↔ (
    ¬ IsBlank "key"
    × (¬ IsBlank "ord-1200100.00key")
    × (lower_text surroundings (digest surroundings "key" settlement)
        ≡ lower_text surroundings "ord-1200100.00key"))
verify_signature_iff_example = verify_signature_iff surroundings "key" settlement

determine_order_status_iff_example :
    (determine_order_status surroundings settlement ≡ (paid, true))
    ↔ Reports
        (lower_text surroundings (trim_space "settlement"))
        (lower_text surroundings (trim_space ""))
        paid
determine_order_status_iff_example = determine_order_status_iff surroundings settlement paid
