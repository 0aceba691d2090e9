-- ===== src/Tests/Lists.antt =====
-- Lines of the free lists and failures of a source (packages/plugin/test/sources.test.ts).
use dsh_opencode.Base.{
  ◌≡◌, refl, List, [], ◌∷◌, Text, codes, some, arith, text_dec, exists, starts_with,
}
use dsh_opencode.Sources.Lines.{
  FreeAddress, parse_free_list_line, number_from, is_port_text, is_space, trim_start,
}
use dsh_opencode.Sources.Roundtrip
use dsh_opencode.Sources.Roundtrip.{IsPlainHost, AllNew, lists, parses_to}
use dsh_opencode.Sources.Breaker.{SourceBreaker}

abbrev parsed : FreeAddress
parsed = record { address = codes "1.2.3.4:8080"; host = codes "1.2.3.4"; port = 8080 }

-- A scheme in front is dropped.
parse_scheme : parse_free_list_line (codes " socks5://1.2.3.4:8080") ≡ some parsed
unfolding parse_free_list_line starts_with text_dec trim_start is_space
parse_scheme = refl

plain : IsPlainHost b'h' (codes "1")
unfolding is_space
plain = record {
  no_colon = omega arith;
  no_space = (refl, (refl, tt));
  no_comment = omega arith;
  no_bracket = omega arith;
}

parse_free_list_line-accepts_example :
    parse_free_list_line (codes "h1:80")
    ≡ some (record { address = codes "h1:80"; host = codes "h1"; port = 80 })
unfolding is_port_text exists number_from
parse_free_list_line-accepts_example =
    Roundtrip.parse_free_list_line-accepts b'h' (codes "1") b'8' (codes "0") plain refl
      (omega arith) (omega arith)

abbrev twice_listed : List Text
twice_listed = codes "h1:80" ∷ codes "# note" ∷ codes "http://h1:80" ∷ []

abbrev breaker : SourceBreaker
breaker = record { entries = []; threshold = 3; cooldown_ms = 600000 }

abbrev url : Text
url = codes "u"

abbrev tripped : SourceBreaker
tripped = record breaker {
  entries = (url, record { consecutive_fails = 3; disabled_until = 40 }) ∷ [];
}
