-- ===== src/Store/States.antt =====
-- The tests on the states of the rows (apps/api/app/models/enums.py), and the rows written back.
use payments_portal.Base.{Bool, true, false}
use payments_portal.Store.Rows.{
  State, IntentState, Binding, Operation, PurchaseIntent, Work, Customer, Db,
}
use payments_portal.Store.Tables.{put}

-- The changed row is written back under its own key.
abbrev pub save_operation : Operation → Db → Db
save_operation op db = record db { operations = put (λ o. o.create_operation_id) op db.operations }

abbrev pub save_intent : PurchaseIntent → Db → Db
save_intent row db = record db { intents = put (λ r. r.purchase_intent_id) row db.intents }

abbrev pub save_work : Work → Db → Db
save_work work db = record db { works = put (λ w. w.coalescing_key) work db.works }

abbrev pub is_open_send : State → Bool
is_open_send State.pending = true
is_open_send State.proven_not_sent = true
is_open_send _ = false

abbrev pub is_not_sent : State → Bool
is_not_sent State.proven_not_sent = true
is_not_sent _ = false

abbrev pub in_review : IntentState → Bool
in_review IntentState.manual_review = true
in_review _ = false

abbrev pub is_bound : State → Bool
is_bound State.bound = true
is_bound _ = false

abbrev pub is_in_flight : State → Bool
is_in_flight State.possible_send = true
is_in_flight State.unknown = true
is_in_flight _ = false

abbrev pub is_reviewed : State → Bool
is_reviewed State.manual_review = true
is_reviewed _ = false

abbrev pub is_conflicting : Binding → Bool
is_conflicting Binding.identity_conflict = true
is_conflicting _ = false

abbrev pub save_customer : Customer → Db → Db
save_customer c db = record db { customers = put (λ r. r.customer_id) c db.customers }

abbrev pub is_pending : State → Bool
is_pending State.pending = true
is_pending _ = false

abbrev pub is_possible_send : State → Bool
is_possible_send State.possible_send = true
is_possible_send _ = false

abbrev pub is_bound_customer : Binding → Bool
is_bound_customer Binding.bound = true
is_bound_customer _ = false
