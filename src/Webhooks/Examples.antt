-- ===== src/Webhooks/Examples.antt =====
-- Checks of a small cluster, and an object of each kind that they admit, for tests.
use synthetics_operator.Shared.{
  String, refl, true, false, not, none, some, [], codes, bytes_beq, pos, ◌*◌, ◌≡◌, ◌∷◌, ◌==◌,
  string_eq, bytes_eq, nat_eq, if◌then◌else◌,
}
use synthetics_operator.Depends.{not_found}
use synthetics_operator.Float.Exact.{exact}
use synthetics_operator.Shared.Graph.{member}
use synthetics_operator.Depends.{validate_depends, check_entries}
use synthetics_operator.Labels.{validate_metric_labels}
use synthetics_operator.Assertions.{
  validate_assertion_expr, split_assertion_expr, try_candidates, cut, after_prefix,
}
use synthetics_operator.Float.Exact.{number, digits}
use synthetics_operator.Shared.Strings.{trim_space, drop_space, space_width, space_width_end}
use synthetics_operator.Cron.{
  validate_probe_interval, validate_cron_interval, validate_minute_interval,
}
use synthetics_operator.Webhooks.{
  all_errors, check_times, check_headers, check_assertions, check_object, validate_http_probe,
  validate_k6_test, validate_heartbeat, second, validate_token_secret_ref, is_blank, to_upper,
  trim_dot, validate_tcp_probe, validate_dns_probe,
}
use synthetics_operator.Api.{Object, Status, HttpProbe, DnsProbe, TcpProbe, Heartbeat, K6Test}
use synthetics_operator.Webhooks.{Checks, hour}

-- Every name is one, every URL is api.example.com's, and only "dns:53" is an address.
abbrev pub checks : Checks
checks = record {
  reader = λ kind key. not_found;
  is_dns1123_subdomain = λ name. not (name == "");
  is_dns_host = λ host. not (host == []);
  is_config_map_key = λ key. true;
  parse_url = λ url. some (record { scheme = "https"; host = "api.example.com" });
  split_host_port = λ address. if address == "8.8.8.8:53" then some ("8.8.8.8", "53") else none;
  is_ip = λ host. false;
  has_certificates = λ pem. false;
}

abbrev pub object : String → Object
object name = record {
  name = name;
  namespace = "ns";
  generation = pos 1;
  deleting = false;
  suspend = false;
  depends = [];
  metric_labels = [];
}

abbrev no_status : Status
no_status = record { observed_generation = pos 0; conditions = [] }

abbrev pub http_probe : HttpProbe
http_probe = record {
  object = object "web";
  interval = pos (30 * second);
  timeout = pos (10 * second);
  request = record {
    url = "https://api.example.com";
    method = "GET";
    headers = [];
    headers_from =
        record { name = "Authorization"; secret_key_ref = record { name = "api"; key = "token" } }
        ∷ [];
    body = [];
  };
  tls = none;
  assertions = record { name = "up"; expr = codes "status_code = 200" } ∷ [];
  status = no_status;
}

abbrev pub dns_probe : DnsProbe
dns_probe = record {
  object = object "name";
  interval = pos (30 * second);
  timeout = pos (10 * second);
  query = record { name = "example.com"; type = "mx"; resolver = "" };
  assertions = [];
  status = no_status;
}

abbrev pub tcp_probe : TcpProbe
tcp_probe = record {
  object = object "db";
  interval = pos (30 * second);
  timeout = pos (10 * second);
  target = record { host = codes " db.ns "; port = pos 5432 };
  assertions = record { name = "fast"; expr = codes "duration_ms < 100" } ∷ [];
  status = no_status;
}

abbrev pub k6_test : K6Test
k6_test = record {
  object = object "load";
  interval = pos hour;
  k6_version = "0.50.0";
  script = record { name = "scripts"; key = "load.js" };
  ttl_after_finished = pos hour;
  runner = none;
  status = no_status;
}

abbrev pub heartbeat : Heartbeat
heartbeat = record {
  object = object "backup";
  period = pos hour;
  grace = pos 0;
  token_secret_ref = none;
  status = record {
    observed_generation = pos 0;
    conditions = [];
    url = [];
    token_secret_name = "";
    last_ping_time = none;
    last_result = "";
  };
}

unfoldable pub validation : Unit {0}
unfolding all_errors check_times check_headers check_assertions check_object validate_http_probe
    validate_k6_test validate_heartbeat validate_dns_probe validate_tcp_probe validate_depends
    check_entries validate_metric_labels validate_assertion_expr split_assertion_expr try_candidates
    cut after_prefix number digits trim_space validate_probe_interval validate_cron_interval
    validate_minute_interval validate_token_secret_ref is_blank to_upper trim_dot member drop_space
    space_width space_width_end bytes_beq
validation = tt

http_probe_admitted : validate_http_probe exact checks http_probe ≡ []
unfolding validation
http_probe_admitted = refl

pub dns_probe_admitted : validate_dns_probe exact checks dns_probe ≡ []
unfolding validation
dns_probe_admitted = refl

tcp_probe_admitted : validate_tcp_probe exact checks tcp_probe ≡ []
unfolding validation
tcp_probe_admitted = refl

pub k6_test_admitted : validate_k6_test exact checks k6_test ≡ []
unfolding validation
k6_test_admitted = refl

heartbeat_admitted : validate_heartbeat exact checks heartbeat ≡ []
unfolding validation
heartbeat_admitted = refl
