-- ===== src/Aggregator/Refusal.antt =====
-- The statuses that `_SEND` takes for a client error (nmoscommon/aggregator.py).
use nmos_common.Common.{ℕ, String, ◌≡◌, subst, true, Option, arith, length}
use nmos_common.Common.Exec.{err}
use nmos_common.Aggregator.{
  Aggregator, World, Resource, Reply, refused, invalid_request, judge, send,
}
use nmos_common.Aggregator.Send.{Explains, send-Sends}

judge_python3 : (r : Reply) (k : ℕ) → judge true r ≡ refused k → k ≡ 400
unfolding judge
judge_python3 r k h = ground (arith)

-- On Python 3, if `_SEND` raises InvalidRequest, its status is 400.
pub send-invalid_python3 :
    {H : Type 0} (w : World H) (method url : String) (body : Option Resource) (s : Aggregator H)
    (k : ℕ)
    → w.python3 ≡ true
    → (send w method url body s).0 ≡ err (invalid_request k)
    → k ≡ 400
send-invalid_python3 w method url body s k on h =
    let out = send-Sends w method url body s in
    let said =
      subst (Explains w 3 (length out.rs) (send w method url body s).1.sent) h out.explained in
    judge_python3 _ k
      (subst (λ b. judge b (w.net (send w method url body s).1.sent) ≡ refused k) on said.1)
