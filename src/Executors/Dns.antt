-- ===== src/Executors/Dns.antt =====
-- internal/probes/dns_executor.go.
use synthetics_operator.Shared.{
  ℕ, String, Bool, true, false, not, Option, none, some, List, [], Bytes, codes, length, ℤ, pos,
  leb_ℤ, ◌||◌, ◌∷◌, ◌==◌, string_eq, bytes_eq, nat_eq, if◌then◌else◌,
}
use synthetics_operator.Float.{Float64}
use synthetics_operator.Results.{ProbeJob, ProbeResult, DnsProbeSpecPayload}
use synthetics_operator.Specs.{milliseconds}
use synthetics_operator.Assertions.{eval_dns_assertions}
use synthetics_operator.Webhooks.{to_upper, is_blank}
use synthetics_operator.Executors.{
  run_timeout, probe_result, config_error_result, verdict_of, with_verdict,
}

-- A resource record, as far as its value is read: the text of an address, a target, the strings of a
-- TXT record, or the whole record as text.
pub data Record : Type 0 where
  address target : String → Record
  texts : List String → Record
  other : String → Record

pub record DnsResponse : Type 0 where
  -- each answer, with the name of its type
  pub answer : List (Record × String)
  pub authority : ℕ
  pub additional : ℕ
  pub rtt : ℤ

pub record DnsNet : Type 0 where
  -- dns.StringToType has the type
  pub is_type : Bytes → Bool
  -- net.SplitHostPort
  pub split_host_port : String → Option (String × String)
  -- time.Until(deadline), when the query is ready, under a timeout
  pub remaining : ℤ → ℤ
  -- ExchangeContext of a name, a type and a resolver; none is its error
  pub exchange : String → Bytes → String → Option DnsResponse
  -- the strings functions that make a value of a record
  pub trim_dot : String → String
  pub join_spaces : List String → String
  pub after_fields : String → String
  -- time.Since(start), at the return
  pub elapsed : ℤ

pub record DnsResult : Type 0 where
  pub config_error : Bool
  pub resolver_err : Bool
  pub duration : ℤ
  pub first_answer_value : String
  pub first_answer_type : String
  pub answer_count : ℕ
  pub authority_count : ℕ
  pub additional_count : ℕ

-- A result with the fields that the code sets, and the zero values of the others.
abbrev pub without_answer : Bool → Bool → ℤ → DnsResult
without_answer config_error resolver_err duration = record {
  config_error = config_error;
  resolver_err = resolver_err;
  duration = duration;
  first_answer_value = "";
  first_answer_type = "";
  answer_count = 0;
  authority_count = 0;
  additional_count = 0;
}

abbrev pub system_resolver : String
system_resolver = "8.8.8.8:53"

abbrev pub resolver_or_system : String → String
resolver_or_system resolver = if resolver == "" then system_resolver else resolver

abbrev pub type_or_a : Bytes → Bytes
type_or_a type = if type == [] then codes "A" else type

abbrev pub is_host_port : Option (String × String) → Bool
is_host_port none = false
is_host_port (some (host, port)) = not (host == "" || port == "")

module _ (net : DnsNet) where
  unfoldable pub extract_answer_value : Record → String
  extract_answer_value (address text) = text
  extract_answer_value (target name) = net.trim_dot name
  extract_answer_value (texts parts) = net.join_spaces parts
  extract_answer_value (other text) = net.after_fields text

  abbrev pub with_first : List (Record × String) → DnsResult → DnsResult
  with_first [] r = r
  with_first ((rr, type) ∷ _) r = record r {
    first_answer_value = extract_answer_value rr;
    first_answer_type = type;
  }

  abbrev pub of_response : Option DnsResponse → DnsResult
  of_response none = without_answer false true net.elapsed
  of_response (some resp) = with_first resp.answer (record (without_answer false false resp.rtt) {
    answer_count = length resp.answer;
    authority_count = resp.authority;
    additional_count = resp.additional;
  })

  -- From the check of the resolver on.
  abbrev query_resolver : ℤ → String → Bytes → String → DnsResult
  query_resolver timeout name type resolver =
      if not (is_host_port (net.split_host_port resolver))
      then without_answer true false net.elapsed
      else if leb_ℤ (net.remaining timeout) (pos 0)
      then without_answer false false net.elapsed
      else of_response (net.exchange name type resolver)

  unfoldable pub execute_query : ℤ → String → String → String → DnsResult
  execute_query timeout name type resolver =
      if is_blank (codes name)
      then without_answer true false net.elapsed
      else if not (net.is_type (type_or_a (to_upper (codes type))))
      then without_answer true false net.elapsed
      else query_resolver timeout name (type_or_a (to_upper (codes type)))
          (resolver_or_system resolver)

module _ (F : Float64) (net : DnsNet) where
  abbrev pub dns_failure : DnsResult → Option String
  dns_failure raw = if raw.resolver_err then some "dns_failed" else none

  abbrev pub dns_outcome : ProbeJob → DnsProbeSpecPayload → DnsResult → ProbeResult F
  dns_outcome job payload raw =
      with_verdict F
        (verdict_of F raw.config_error (dns_failure raw) payload.assertions (
          eval_dns_assertions F (pos raw.answer_count) (milliseconds raw.duration)
            payload.assertions))
        (record (probe_result F job) {
          duration_ms = milliseconds raw.duration;
          dns_query_name = payload.name;
          dns_resolver = payload.resolver;
          dns_first_answer_value = raw.first_answer_value;
          dns_first_answer_type = raw.first_answer_type;
          dns_answer_count = pos raw.answer_count;
          dns_authority_count = pos raw.authority_count;
          dns_additional_count = pos raw.additional_count;
        })

  -- Execute, by the payload of the job.
  unfoldable pub run_dns : ProbeJob → Option DnsProbeSpecPayload → ProbeResult F
  run_dns job none = config_error_result F job
  run_dns job (some payload) = dns_outcome job payload (
      execute_query net (run_timeout payload.timeout_ms) payload.name payload.type payload.resolver)

  unfoldable pub execute_dns : ProbeJob → ProbeResult F
  execute_dns job = run_dns job job.spec.dns_probe
