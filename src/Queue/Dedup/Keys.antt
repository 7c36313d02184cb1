-- ===== src/Queue/Dedup/Keys.antt =====
-- queue/dedup.py: a call of the store, and what it leaves of the primary key.
use sms_gateway_v.Base.{ℕ, String, List, [], ◌∷◌, arith}
use sms_gateway_v.Exec.{Result, ok, raised, ◌>>=◌}
use sms_gateway_v.Queue.Models.{ItemStatus}
use sms_gateway_v.Queue.Dedup
use sms_gateway_v.Queue.Dedup.{
  DedupStore, Row, row_of, set_rows, insert_row, upsert, status_eq, connection_or_raise,
}
use sms_gateway_v.Queue.Dedup.Laws.{
  IsKeyed, with_status-IsKeyed, without_item-IsKeyed, without_older-IsKeyed,
}

pub data DedupCall : Type 0 where
  opens closes : DedupCall
  records : String → String → DedupCall
  updates : String → ItemStatus → DedupCall
  reconciles : String → String → ItemStatus → DedupCall
  deletes : String → DedupCall
  purges : ItemStatus → ℕ → DedupCall

-- what is kept of a result: whether there is one, or the exception
unfoldable pub ended : {A : Type 0} → Result A × DedupStore → Result (Unit {0}) × DedupStore
ended (ok a, d) = (ok tt, d)
ended (raised e, d) = (raised e, d)

unfoldable pub dedup_call : ℕ → DedupCall → DedupStore → Result (Unit {0}) × DedupStore
dedup_call now opens d = Dedup.initialize d
dedup_call now closes d = Dedup.close d
dedup_call now (records h item_id) d = Dedup.record_new now h item_id d
dedup_call now (updates h st) d = Dedup.update_status now h st d
dedup_call now (reconciles h item_id st) d = Dedup.reconcile_status now h item_id st d
dedup_call now (deletes item_id) d = ended (Dedup.delete_by_item_id item_id d)
dedup_call now (purges st days) d = ended (Dedup.purge_older_than now st days d)

-- Calls in a row, whichever of them raise: how each ended, and what they leave.
unfoldable pub dedup_run : List (ℕ × DedupCall) → DedupStore → List (Result (Unit {0})) × DedupStore
dedup_run [] d = ([], d)
dedup_run ((now, c) ∷ cs) d =
    let (r, d') = dedup_call now c d in let (rs, d'') = dedup_run cs d' in (r ∷ rs, d'')

pub dedup_call-IsKeyed :
    (now : ℕ) (c : DedupCall) (d : DedupStore)
    → IsKeyed d.rows
    → IsKeyed (dedup_call now c d).1.rows
unfolding dedup_call ended Dedup.initialize Dedup.close Dedup.record_new Dedup.update_status
    Dedup.reconcile_status Dedup.delete_by_item_id Dedup.purge_older_than Dedup.cutoff_or_raise
    insert_row upsert connection_or_raise ◌>>=◌
dedup_call-IsKeyed now opens d k = ground arith
dedup_call-IsKeyed now closes d k = ground arith
dedup_call-IsKeyed now (records h item_id) d k = ground arith
dedup_call-IsKeyed now (updates h st) d k = ground (arith, with_status-IsKeyed now h st d.rows k)
dedup_call-IsKeyed now (reconciles h item_id st) d k =
    ground (arith, with_status-IsKeyed now h st d.rows k)
dedup_call-IsKeyed now (deletes item_id) d k = ground (arith, without_item-IsKeyed item_id d.rows k)
dedup_call-IsKeyed now (purges st days) d k =
    ground (arith, without_older-IsKeyed st (Dedup.cutoff now days) d.rows k)
