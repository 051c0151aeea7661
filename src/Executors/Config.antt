-- ===== src/Executors/Config.antt =====
-- When a run is ok, and when it is not config_error.
use synthetics_operator.Shared.{
  String, refl, sym, ap, Bool, true, false, Option, none, some, List, [], arith, str_beq_iff, Bytes,
  bytes_beq_iff, ℤ, pos, ◌≡◌, ◌∙◌, ◌≢◌, ◌↔◌, ◌∷◌, ◌==◌, ◌≤ℤ◌, string_eq, bytes_eq, nat_eq,
  if◌then◌else◌,
}
use mathlib.Core.Path.{subst}
use synthetics_operator.Float.{Float64}
use synthetics_operator.Shared.Dict.{Dict}
use synthetics_operator.Results.{ProbeJob, TcpProbeSpecPayload, Assertion}
use synthetics_operator.Specs.{milliseconds}
use synthetics_operator.Shared.Strings.{trim_space}
use synthetics_operator.Assertions.{eval_tcp_assertions, eval_in_context, tcp_context}
use synthetics_operator.Assertions.Verdicts.{all_pass}
use synthetics_operator.Executors.{verdict_of, run_timeout}
use synthetics_operator.Executors.Tcp.{TcpNet, connect, run_tcp, tcp_failure}
use synthetics_operator.Executors.Verdict.{Fails, tcp_failure-Fails, eval_in_context-result}

abbrev judged : Bool → String
judged pass = if pass then "ok" else "assertion_failed"

judged_ne : (pass : Bool) → judged pass ≢ "config_error"
judged_ne true e = ground (arith, (str_beq_iff "ok" "config_error").1 e)
judged_ne false e = ground (arith, (str_beq_iff "assertion_failed" "config_error").1 e)

judged_iff :
    (result : String) (pass : Bool) → result ≡ judged pass → (result ≡ "ok") ↔ (pass ≡ true)
judged_iff result true h = (λ _. refl, λ _. h)
judged_iff result false h =
    let differs : (result == "ok") ≡ false = ap (λ (x : String). x == "ok") h in
    ground (arith, differs, str_beq_iff result "ok")

-- A host and a port that the executor can dial.
abbrev pub IsTarget : Bytes → ℤ → Type 0
IsTarget host port = (trim_space host ≢ []) × (pos 1 ≤ℤ port) × (port ≤ℤ pos 65535)

pub connect-runs_iff :
    (net : TcpNet) (timeout : ℤ) (host : Bytes) (port : ℤ)
    → ((connect net timeout host port).config_error ≡ false) ↔ IsTarget host port
unfolding connect
connect-runs_iff net timeout host port = ground (arith, bytes_beq_iff (trim_space host) [])

tcp_failure-none_iff :
    (net : TcpNet) (timeout : ℤ) (host : Bytes) (port : ℤ)
    → (connect net timeout host port).config_error ≡ false
    → (tcp_failure (connect net timeout host port) ≡ none)
      ↔ (net.dial timeout (trim_space host) port ≡ none)
unfolding connect
tcp_failure-none_iff net timeout host port runs = ground (arith, runs)

connect-duration :
    (net : TcpNet) (timeout : ℤ) (host : Bytes) (port : ℤ)
    → (connect net timeout host port).duration ≡ net.elapsed
unfolding connect
connect-duration net timeout host port = ground arith

module _ (F : Float64) where
  open F use {Float, of_int}

  -- A verdict is ok exactly when the executor could run, nothing failed and all assertions pass.
  pub verdict_of-ok_iff :
      (config_error : Bool) (failure : Option String) (assertions : List Assertion)
      (ctx : Dict Bytes Float)
      → Fails failure
      → ((verdict_of F config_error failure assertions (eval_in_context F ctx assertions)).0 ≡ "ok")
        ↔ ((config_error ≡ false) × (failure ≡ none) × (all_pass F ctx assertions ≡ true))
  unfolding all_pass
  verdict_of-ok_iff true failure assertions ctx f =
      (λ e. ground (arith, (str_beq_iff "config_error" "ok").1 e), λ (e, _, _). ground (arith, e))
  verdict_of-ok_iff false (some class) assertions ctx f =
      ground (arith, f class refl, str_beq_iff class "ok")
  verdict_of-ok_iff false none [] ctx f = ground arith
  verdict_of-ok_iff false none (a ∷ rest) ctx f =
      let judged =
        judged_iff (eval_in_context F ctx (a ∷ rest)).0 (all_pass F ctx (a ∷ rest))
          (eval_in_context-result F ctx (a ∷ rest)) in
      (λ e. (refl, refl, judged.0 e), λ (_, _, pass). judged.1 pass)

  -- A TCP job's result is ok exactly when the host and the port of its payload can be dialled, the
  -- dial succeeds within the timeout, and each assertion holds of its duration.
  pub run_tcp-ok_iff :
      (net : TcpNet) (job : ProbeJob) (payload : TcpProbeSpecPayload)
      → ((run_tcp F net job (some payload)).result ≡ "ok") ↔ (
          IsTarget payload.host payload.port
          × (net.dial (run_timeout payload.timeout_ms) (trim_space payload.host) payload.port
              ≡ none)
          × (all_pass F (tcp_context F (of_int (milliseconds net.elapsed))) payload.assertions
              ≡ true))
  unfolding run_tcp eval_tcp_assertions
  run_tcp-ok_iff net job payload =
      let timeout = run_timeout payload.timeout_ms in
      let raw = connect net timeout payload.host payload.port in
      let ok =
        verdict_of-ok_iff raw.config_error (tcp_failure raw) payload.assertions
          (tcp_context F (of_int (milliseconds raw.duration))) (tcp_failure-Fails F raw) in
      let runs = connect-runs_iff net timeout payload.host payload.port in
      let dials = tcp_failure-none_iff net timeout payload.host payload.port in
      let reads =
        λ (d : ℤ). all_pass F (tcp_context F (of_int (milliseconds d))) payload.assertions ≡ true in
      let elapsed = connect-duration net timeout payload.host payload.port in
      (
        λ e. (runs.0 (ok.0 e).0, (dials (ok.0 e).0).0 (ok.0 e).1, subst reads elapsed (ok.0 e).2),
        λ (target, dialled, pass).
            ok.1 (runs.1 target, (dials (runs.1 target)).1 dialled, subst reads (sym elapsed) pass),
      )

  -- Where an executor could run, the verdict is not config_error.
  pub verdict_of-runs :
      (config_error : Bool) (failure : Option String) (assertions : List Assertion)
      (ctx : Dict Bytes Float)
      → config_error ≡ false
      → Fails failure
      → (verdict_of F config_error failure assertions (eval_in_context F ctx assertions)).0
        ≢ "config_error"
  verdict_of-runs true failure assertions ctx runs f e = ground (arith, runs)
  verdict_of-runs false (some class) assertions ctx runs f e =
      ground (arith, f class refl, (str_beq_iff class "config_error").1 e)
  verdict_of-runs false none [] ctx runs f e = ground (arith, (str_beq_iff "ok" "config_error").1 e)
  verdict_of-runs false none (a ∷ rest) ctx runs f e =
      judged_ne (all_pass F ctx (a ∷ rest)) (sym (eval_in_context-result F ctx (a ∷ rest)) ∙ e)
