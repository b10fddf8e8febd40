-- ===== src/PubSub/Executing.antt =====
-- What the publisher's breaker leaves as it is.
use go_patternx.Base.{[], Bool, sym, ◌≡◌, some, false, refl, true}
use mathlib.Core.Path.{subst}
use Prim.Native.String.{String}
use go_patternx.PubSub.System.{PubSub, CallEnd, returned, panicking}
use go_patternx.PubSub.Publishing.{call_admitted, execute, record_end, CallRun, with_breaker}
use go_patternx.PubSub.Sending.{Puts, Puts-nothing, Puts-same}
use go_patternx.PubSub.Breaker.{admit, record_result}
use go_patternx.Errors.{sentinel, circuit_breaker_open}

-- A call through the breaker is refused, or is the operation's, and for the rest touches neither a
-- channel nor a count of messages.
pub data Executes (name : String) (ps : PubSub) (operation : PubSub → PubSub × CallEnd)
    : PubSub × CallEnd → Type 0 where
  refused :
      (ps' : PubSub)
      → Puts name [] ps ps'
      → Executes name ps operation (ps', returned (some (sentinel circuit_breaker_open)))
  ran :
      (now ps' : PubSub)
      → Puts name [] ps now
      → Puts name [] (operation now).0 ps'
      → Executes name ps operation (ps', (operation now).1)

module _ (name : String) where
  record_end-Puts :
      (r : CallRun) (outcome : PubSub × CallEnd)
      → Puts name [] outcome.0 (record_end r outcome).0 × ((record_end r outcome).1 ≡ outcome.1)
  unfolding record_end
  record_end-Puts r (ps, panicking) = (Puts-same name ps, refl)
  record_end-Puts r (ps, returned e) = (
    Puts-nothing name [] ps
        (with_breaker ps (record_result ps.publisher.circuit_breaker e r.recorded_at)) refl refl
        refl refl refl refl,
    refl,
  )

  call_admitted-Executes :
      (ps now : PubSub) (r : CallRun) (operation : PubSub → PubSub × CallEnd) (admitted : Bool)
      → Puts name [] ps now
      → Executes name ps operation (call_admitted now r operation admitted)
  unfolding call_admitted
  call_admitted-Executes ps now r operation false puts = refused now puts
  call_admitted-Executes ps now r operation true puts =
      let (after, same) = record_end-Puts r (operation now) in
      subst (λ e. Executes name ps operation ((record_end r (operation now)).0, e)) (sym same)
        (ran now (record_end r (operation now)).0 puts after)

  pub execute-Executes :
      (ps : PubSub) (r : CallRun) (operation : PubSub → PubSub × CallEnd)
      → Executes name ps operation (execute ps r operation)
  unfolding execute
  execute-Executes ps r operation =
      let (cb, admitted) = admit ps.publisher.circuit_breaker r.admitted_at in
      call_admitted-Executes ps (with_breaker ps cb) r operation admitted
        (Puts-nothing name [] ps (with_breaker ps cb) refl refl refl refl refl refl)
