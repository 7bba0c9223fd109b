-- ===== src/Port/Examples.antt =====
-- One port list.
use ts_domain_gateway.Common.{◌≡◌, ◌↔◌, ◌⊎◌, inl, inr, [], ◌∷◌, List, refl, true, All, Any, arith}
use ts_domain_gateway.GoText.{Bytes, codes}
use ts_domain_gateway.Port.{allowed_port, valid_ports}
use ts_domain_gateway.Port.Laws.{IsEntry, Names, valid_ports_iff, allowed_port_iff}

abbrev web : List Bytes
web = codes "tcp:443" ∷ codes "udp:53" ∷ []

valid_ports_iff_example : (valid_ports web ≡ true) ↔ All IsEntry web
valid_ports_iff_example = valid_ports_iff web

web_entries : All IsEntry web
web_entries = (
  record {
    proto = codes "tcp";
    digits = codes "443";
    spelled = refl;
    known = inl refl;
    numeral = (
      (omega arith, omega arith),
      ((omega arith, omega arith), ((omega arith, omega arith), tt)),
    );
    positive = omega arith;
    fits = omega arith;
  },
  (
    record {
      proto = codes "udp";
      digits = codes "53";
      spelled = refl;
      known = inr refl;
      numeral = ((omega arith, omega arith), ((omega arith, omega arith), tt));
      positive = omega arith;
      fits = omega arith;
    },
    tt,
  ),
)

allowed_port_iff_example :
    (allowed_port web (codes "tcp") 443 ≡ true) ↔ ((web ≡ []) ⊎ Any (Names (codes "tcp") 443) web)
allowed_port_iff_example =
    allowed_port_iff web (codes "tcp") 443 web_entries
      (omega arith, (omega arith, (omega arith, tt)))
