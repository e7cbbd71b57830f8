-- ===== src/Queue/Task.antt =====
-- internal/infrastructure/repository/redis/redis_job_queue.go: the methods of `Task`, over a broker
-- and a codec. `now` is the reading of the clock in nanoseconds since 1970.
pub mod Laws
use notification_server.Base.{
  ℕ, String, ◌+◌, ◌/◌, Bool, true, false, Option, none, some, List, [], ◌∷◌, if◌then◌else◌,
}
use Prim.Native.String.{◌++◌}
use notification_server.Domain.Errors.{
  Error, Code, Message, Arg, str, num, Variable, text, sentinel, foreign, new_domain_error,
}
use notification_server.Domain.Entities.{Job, JobMessage}
use notification_server.Domain.Action.{
  Result, ok, err, Action, return, fail, lift, ignore_error, ◌>>=◌, ◌>>◌,
}
use notification_server.Store.Broker.{Broker}
use notification_server.Store.World.{World, call, on_broker}
use notification_server.Queue.Backoff.{calculate_backoff_delay}
use notification_server.Queue.Codec.{Payload, payload_of, job_of, Codec}

abbrev pub nanoseconds : ℕ
nanoseconds = 1_000_000_000

abbrev pub job_failure : Code → String → String → Job → Error
job_failure c format stream job =
    new_domain_error c
      (record { format = format; args = str stream ∷ num job.job_id ∷ str job.request_id ∷ [] })
      (some "redis")

abbrev pub stream_failure : Code → String → List Arg → Error
stream_failure c format args =
    new_domain_error c (record { format = format; args = args }) (some "redis")

-- `fmt.Sprintf("retry_%s", stream)`
abbrev pub retry_queue : String → String
retry_queue stream = "retry_" ++ stream

abbrev pub or_fail {ℓ} : {A : Type ℓ} → Error → Option A → Result A
or_fail e none = err e
or_fail e (some a) = ok a

-- The bytes under the key "payload" of what XREADGROUP brought.
unfoldable pub raw_payload : Option (ℕ × Option String) → Result (ℕ × String)
raw_payload none = err (new_domain_error Code.external (text "no messages available") none)
raw_payload (some (i, none)) =
    err (new_domain_error Code.internal (text "invalid payload format") none)
raw_payload (some (i, some raw)) = ok (i, raw)

abbrev pub no_message : List String → Result (List String)
no_message [] = err (sentinel Variable.no_message_found)
no_message (p ∷ ps) = ok (p ∷ ps)

module _ (B : Broker) (C : Codec) {H : Type 0} where
  unfoldable pub create_consumer_group : String → String → Action (World B.State H) (Unit {0})
  -- both answers, a new group and BUSYGROUP, are fine
  create_consumer_group stream group = do
    created ← call (foreign "redis") (on_broker (B.xgroup_create stream group))
    return tt

  unfoldable pub add : Job → String → Action (World B.State H) (Unit {0})
  add job stream = do
    bytes ← lift (
        or_fail
          (job_failure Code.internal "failed to marshal for %s stream, jobID %d, RequestID %s"
            stream job)
          (C.marshal (payload_of job)))
    id ←
        call
          (job_failure Code.external "failed to add to %s stream, jobID %d, RequestID %s" stream
            job)
          (on_broker (B.xadd stream bytes))
    return tt

  unfoldable pub read : String → ℕ → String → Action (World B.State H) JobMessage
  unfolding raw_payload
  read group worker stream = do
    result ←
        call
          (stream_failure Code.external "failed to read from %s stream, consumerID %d"
            (str stream ∷ num worker ∷ []))
          (on_broker (B.xreadgroup stream group worker))
    (i, raw) ← lift (raw_payload result)
    payload ← lift (
        or_fail (stream_failure Code.internal "failed to unmarshal for %s" (str stream ∷ []))
          (C.unmarshal raw))
    return (record { message_id = i; payload = job_of payload })

  unfoldable pub ack : String → ℕ → String → Action (World B.State H) (Unit {0})
  ack group message_id stream =
      call
        (stream_failure Code.external "failed to ack for %s stream and messageID %s"
          (str stream ∷ num message_id ∷ []))
        (on_broker λ s. (tt, B.xack stream group message_id s))

  unfoldable pub delete : ℕ → String → Action (World B.State H) (Unit {0})
  delete message_id stream =
      call
        (stream_failure Code.external "failed to delete message from %s stream and messageID %s"
          (str stream ∷ num message_id ∷ []))
        (on_broker λ s. (tt, B.xdel stream message_id s))

  unfoldable pub schedule_retry : (ℕ → ℕ) → ℕ → Job → String → Action (World B.State H) (Unit {0})
  schedule_retry rand now job stream = do
    delay ← lift (calculate_backoff_delay rand job.retry_counts)
    bytes ← lift (
        or_fail
          (job_failure Code.internal "failed to marshal for %s stream and jobID %d, RequestID %s"
            stream job)
          (C.marshal (payload_of job)))
    call
        (job_failure Code.internal "failed to schedule for %s stream and jobID %d, RequestID %s"
          stream job)
        (on_broker λ s. (tt, B.zadd (retry_queue stream) ((now + delay) / nanoseconds) bytes s))

  -- The loop of `ReEnqueue` over the due payloads; the answer of ZREM is not looked at.
  unfoldable pub re_enqueue_all :
      String → String → List String → Action (World B.State H) (Unit {0})
  re_enqueue_all queue stream [] = return tt
  re_enqueue_all queue stream (bytes ∷ rest) =
      let continue = re_enqueue_all queue stream rest in
      do
        payload ← lift (
            or_fail
              (stream_failure Code.internal "failed to unmarshal for %s queue" (str queue ∷ []))
              (C.unmarshal bytes))
        add (job_of payload) stream
        ignore_error (call (foreign "redis") (on_broker λ s. (tt, B.zrem queue bytes s)))
        continue

  unfoldable pub re_enqueue : ℕ → String → String → Action (World B.State H) (Unit {0})
  re_enqueue now queue stream = do
    payloads ←
        call (stream_failure Code.external "failed to read messages from %s" (str queue ∷ []))
          (on_broker λ s. (B.zrangebyscore queue (now / nanoseconds) 10 s, s))
    due ← lift (no_message payloads)
    re_enqueue_all queue stream due
