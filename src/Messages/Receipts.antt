-- ===== src/Messages/Receipts.antt =====
-- Receipts of messages: `MarkDelivered` and `MarkRead` of internal/domain/messages/service_impl.go.
use chatter_stack.Base.{ℕ, String, ◌≡◌, Option, none, some, arith, inl, inr}
use chatter_stack.Exec.{ok, Result-cases}
use chatter_stack.Models.{MessageReceipt, status_delivered, status_read}
use chatter_stack.Messages.{Service, mark_delivered, mark_read}

abbrev pub receipt_of : String → String → String → Option ℕ → MessageReceipt
receipt_of id user status seen = record {
  id = "";
  message_id = id;
  user_id = user;
  status = status;
  seen_at = seen;
}

-- Whether the repository stores a receipt and then, only after that, the same status of the message.
pub record IsMarked {W : Type 0} (s : Service W) (id user status : String) (seen : Option ℕ)
    (w w' : W) : Type 0 where
  pub between : W
  pub receipt : s.repo.upsert_receipt (receipt_of id user status seen) w ≡ (ok tt, between)
  pub message : s.repo.update_status id status between ≡ (ok tt, w')

module _ {W : Type 0} (s : Service W) where
  -- `MarkDelivered` succeeds only if the repository has stored a receipt "DELIVERED" without a
  -- time, and after that the status "DELIVERED" of the message.
  pub mark_delivered_stores :
      (id user : String) (w w' : W)
      → mark_delivered s id user w ≡ (ok tt, w')
      → IsMarked s id user status_delivered none w w'
  unfolding mark_delivered
  mark_delivered_stores id user w w' h =
      elim (Result-cases (s.repo.upsert_receipt (receipt_of id user status_delivered none) w).0) [
        | inr (e, f) ↦ absurd (ground arith)
        | inl (u, f) ↦ record {
          between = (s.repo.upsert_receipt (receipt_of id user status_delivered none) w).1;
          receipt = ground arith;
          message = ground arith;
        }
      ]

  -- `MarkRead` succeeds only if the repository has stored a receipt "READ" with the time of the
  -- call, and after that the status "READ" of the message.
  pub mark_read_stores :
      (id user : String) (w w' : W)
      → mark_read s id user w ≡ (ok tt, w')
      → IsMarked s id user status_read (some (s.now w)) w w'
  unfolding mark_read
  mark_read_stores id user w w' h =
      elim (Result-cases
        (s.repo.upsert_receipt (receipt_of id user status_read (some (s.now w))) w).0) [
          | inr (e, f) ↦ absurd (ground arith)
          | inl (u, f) ↦ record {
            between = (s.repo.upsert_receipt (receipt_of id user status_read (some (s.now w))) w).1;
            receipt = ground arith;
            message = ground arith;
          }
        ]
