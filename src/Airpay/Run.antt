-- ===== src/Airpay/Run.antt =====
-- A call of api/airpay_runtime/airpay_purchase.py under the lock of its transaction, as the sequence of
-- its actions: every `record.update` is committed on its own, and every request to Airpay stands
-- between two of them. The clock comes with each answer.
use homtech_hub.Prelude.{ℕ, Json, Fields}
use homtech_hub.Airpay.Http.{HttpError, Try}
use homtech_hub.Airpay.Money.{Balance}
use homtech_hub.Airpay.Transaction.{Transaction}

pub data AirpayRequest : Type 0 where
  check_request : Fields → AirpayRequest
  pay_request : Fields → AirpayRequest
  voucher_request : Fields → AirpayRequest

pub data Run : Type 0 where
  -- the public view of the row
  shows : Transaction → Run
  fails : HttpError → Run
  -- an exception that is no `HTTPException`
  breaks : Run
  -- the row after the update
  saves : Transaction → Run → Run
  -- an update that stores a code, which another transaction may hold already
  saves_code : Transaction → Run → Run
  asks : AirpayRequest → (ℕ → Try Json → Run) → Run
  asks_balance : (ℕ → Try Balance → Run) → Run
