-- ===== src/Midtrans.antt =====
-- internal/integration/midtrans: signature.go (webhook signatures, payment states) and client.go (Snap
-- transactions). The HTTP transport and the JSON codec of the client are parameters.
pub mod Signatures
use store_order.Base.{
  String, Option, none, some, List, [], ◌∷◌, Bool, true, false, is_empty, if◌then◌else◌, ℤ, pos, ℕ,
  ◌<>◌, ◌==◌, Result, ok, err, wrapped, ◌&&◌, ◌||◌, trim_space, nat_eq, not,
}
use text.Mathlib.Text.{starts_with}
use store_order.Schema.{Float64, OrderStatus, pending_payment, paid, cancelled, expired}
use store_order.Runtime.{Runtime, lower_text}
use store_order.Product.{HttpResponse, ◌>>=◌}

pub record WebhookNotification : Type 0 where
  pub order_id : String
  pub status_code : String
  pub gross_amount : String
  pub signature_key : String
  pub transaction_status : String
  pub fraud_status : String
  pub payment_type : String
  pub transaction_time : String
  pub transaction_id : String

unfoldable pub generate_signature : Runtime → String → String → String → String → String
generate_signature rt order_id status_code gross_amount server_key =
    rt.sha512_hex (order_id <> status_code <> gross_amount <> server_key)

-- `subtle.ConstantTimeCompare` is 1 where the two texts are equal
unfoldable pub verify_signature : Runtime → String → WebhookNotification → Bool
unfolding generate_signature
verify_signature rt server_key notif =
    if is_empty (trim_space server_key) || is_empty (trim_space notif.signature_key)
    then false
    else lower_text rt
        (generate_signature rt notif.order_id notif.status_code notif.gross_amount server_key)
      == lower_text rt notif.signature_key

-- the two results of `DetermineOrderStatus`
unfoldable pub status_of : String → String → OrderStatus × Bool
status_of status fraud =
    if status == "capture"
    then (if fraud == "challenge"
        then (pending_payment, true)
        else if fraud == "accept" || is_empty fraud
        then (paid, true)
        else (pending_payment, false))
    else if status == "settlement"
    then (paid, true)
    else if status == "pending"
    then (pending_payment, true)
    else if status == "deny" || status == "cancel"
    then (cancelled, true)
    else if status == "expire"
    then (expired, true)
    else (pending_payment, false)

unfoldable pub determine_order_status : Runtime → WebhookNotification → OrderStatus × Bool
unfolding status_of
determine_order_status rt notif =
    status_of (lower_text rt (trim_space notif.transaction_status))
      (lower_text rt (trim_space notif.fraud_status))

pub record TransactionDetails : Type 0 where
  pub order_id : String
  pub gross_amount : Float64

pub record CustomerDetails : Type 0 where
  pub first_name : String
  pub email : String

pub record ItemDetail : Type 0 where
  pub id : String
  pub price : Float64
  pub quantity : ℤ
  pub name : String

pub record SnapTransactionRequest : Type 0 where
  pub transaction_details : TransactionDetails
  pub customer_details : CustomerDetails
  pub item_details : List ItemDetail

pub record SnapResponse : Type 0 where
  pub token : String
  pub redirect_url : String

-- an HTTP POST as the client builds it
pub record HttpPost : Type 0 where
  pub endpoint : String
  pub authorization : String
  pub content_type : String
  pub accept : String
  pub body : String

-- SnapClient: its settings, then the JSON codec, base64 and `httpClient.Do`
pub record SnapClient : Type 0 where
  pub server_key : String
  pub is_production : Bool
  pub is_dev_mode : Bool
  pub marshal : SnapTransactionRequest → Result String
  pub base64 : String → String
  pub new_request : HttpPost → Result HttpPost
  pub send : HttpPost → Result HttpResponse
  pub decode : String → Result SnapResponse
  -- fmt's %v of an error body that was decoded into a map
  pub error_body : String → String

-- what a SnapClient takes from Go's packages
pub record SnapTransport : Type 0 where
  pub marshal : SnapTransactionRequest → Result String
  pub base64 : String → String
  pub new_request : HttpPost → Result HttpPost
  pub send : HttpPost → Result HttpResponse
  pub decode : String → Result SnapResponse
  pub error_body : String → String

abbrev pub new_snap_client : SnapTransport → String → Bool → Bool → SnapClient
new_snap_client t server_key is_production is_dev_mode = record {
  server_key = server_key;
  is_production = is_production;
  is_dev_mode = is_dev_mode;
  marshal = t.marshal;
  base64 = t.base64;
  new_request = t.new_request;
  send = t.send;
  decode = t.decode;
  error_body = t.error_body;
}

abbrev pub mock_response : String → SnapResponse
mock_response order_id =
    let token = "mock_snap_token_" <> order_id in
    record {
      token = token;
      redirect_url = "https://app.sandbox.midtrans.com/snap/v2/vtweb/" <> token;
    }

abbrev endpoint_of : SnapClient → String
endpoint_of c =
    if c.is_production
    then "https://app.midtrans.com/snap/v1/transactions"
    else "https://app.sandbox.midtrans.com/snap/v1/transactions"

abbrev snap_of_response : Runtime → SnapClient → HttpResponse → Result SnapResponse
snap_of_response rt c resp =
    if not (nat_eq resp.status_code 201) && not (nat_eq resp.status_code 200)
    then err (
        "midtrans snap error (status "
        <> rt.decimal (pos resp.status_code)
        <> "): "
        <> c.error_body resp.body)
    else wrapped "failed to decode snap response" (c.decode resp.body)

-- a nil response without an error does not occur in this client
unfoldable pub create_snap_transaction :
    Runtime → SnapClient → SnapTransactionRequest → Result SnapResponse
create_snap_transaction rt c req =
    if c.is_dev_mode
      && (is_empty (trim_space c.server_key) || starts_with c.server_key "SB-Mid-server-sample")
    then ok (mock_response req.transaction_details.order_id)
    else if is_empty (trim_space c.server_key)
    then err "midtrans server key is required but unconfigured"
    else do
      payload ← wrapped "failed to marshal snap request" (c.marshal req)
      request ← wrapped "failed to create snap http request" (
          c.new_request (record {
            endpoint = endpoint_of c;
            authorization = "Basic " <> c.base64 (c.server_key <> ":");
            content_type = "application/json";
            accept = "application/json";
            body = payload;
          }))
      response ← wrapped "failed to execute snap transaction request" (c.send request)
      snap_of_response rt c response
