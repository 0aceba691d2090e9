-- ===== src/Sources/Lists.antt =====
-- packages/plugin/src/pool/sources.ts: the table of free lists and `selectSources`.
use dsh_opencode.Base.{Bool, true, false, List, [], ◌∷◌, Text, codes, keep}
use dsh_opencode.Pool.Types.{PoolState, Protocol}

pub data Tier : Type 0 where
  fast slow : Tier

pub record FreeSource : Type 0 where
  pub url : Text
  pub protocol : Protocol
  pub tier : Tier

abbrev source : Text → Protocol → Tier → FreeSource
source url protocol tier = record { url = url; protocol = protocol; tier = tier }

unfoldable pub free_sources : List FreeSource
free_sources =
    source (codes "https://raw.githubusercontent.com/ProxyScraper/ProxyScraper/main/http.txt")
      Protocol.http Tier.fast
    ∷ source (codes "https://raw.githubusercontent.com/ProxyScraper/ProxyScraper/main/socks4.txt")
        Protocol.socks5 Tier.fast
    ∷ source (codes "https://raw.githubusercontent.com/ProxyScraper/ProxyScraper/main/socks5.txt")
        Protocol.socks5 Tier.fast
    ∷ source (codes "https://raw.githubusercontent.com/monosans/proxy-list/main/proxies/http.txt")
        Protocol.http Tier.fast
    ∷ source (codes "https://raw.githubusercontent.com/prxchk/proxy-list/main/http.txt")
        Protocol.http Tier.fast
    ∷ source (codes "https://raw.githubusercontent.com/prxchk/proxy-list/main/socks5.txt")
        Protocol.socks5 Tier.fast
    ∷ source (codes "https://raw.githubusercontent.com/prxchk/proxy-list/main/socks4.txt")
        Protocol.socks5 Tier.fast
    ∷ source
        (codes "https://cdn.jsdelivr.net/gh/sunny9577/proxy-scraper/generated/http_proxies.txt")
        Protocol.http Tier.fast
    ∷ source
        (codes "https://cdn.jsdelivr.net/gh/sunny9577/proxy-scraper/generated/socks5_proxies.txt")
        Protocol.socks5 Tier.fast
    ∷ source
        (codes "https://cdn.jsdelivr.net/gh/sunny9577/proxy-scraper/generated/socks4_proxies.txt")
        Protocol.socks5 Tier.fast
    ∷ source (codes "https://raw.githubusercontent.com/proxio-io/proxy-list/main/http.txt")
        Protocol.http Tier.fast
    ∷ source (codes "https://raw.githubusercontent.com/proxio-io/proxy-list/main/socks5.txt")
        Protocol.socks5 Tier.fast
    ∷ source
        (codes
          "https://raw.githubusercontent.com/proxifly/free-proxy-list/main/proxies/protocols/http/data.txt")
        Protocol.http Tier.fast
    ∷ source
        (codes
          "https://raw.githubusercontent.com/proxifly/free-proxy-list/main/proxies/protocols/socks5/data.txt")
        Protocol.socks5 Tier.fast
    ∷ source (codes "https://raw.githubusercontent.com/TheSpeedX/PROXY-List/master/http.txt")
        Protocol.http Tier.fast
    ∷ source (codes "https://raw.githubusercontent.com/TheSpeedX/PROXY-List/master/socks5.txt")
        Protocol.socks5 Tier.fast
    ∷ source (codes "https://proxyspace.pro/http.txt") Protocol.http Tier.fast
    ∷ source (codes "https://proxyspace.pro/socks5.txt") Protocol.socks5 Tier.fast
    ∷ source (codes "https://raw.githubusercontent.com/TheSpeedX/SOCKS-List/master/http.txt")
        Protocol.http Tier.slow
    ∷ source (codes "https://raw.githubusercontent.com/TheSpeedX/SOCKS-List/master/socks4.txt")
        Protocol.socks5 Tier.slow
    ∷ source (codes "https://raw.githubusercontent.com/TheSpeedX/SOCKS-List/master/socks5.txt")
        Protocol.socks5 Tier.slow
    ∷ source (codes "https://raw.githubusercontent.com/monosans/proxy-list/main/proxies/socks4.txt")
        Protocol.socks5 Tier.slow
    ∷ source (codes "https://raw.githubusercontent.com/monosans/proxy-list/main/proxies/socks5.txt")
        Protocol.socks5 Tier.slow
    ∷ source (codes "https://cdn.jsdelivr.net/gh/databay-labs/free-proxy-list/http.txt")
        Protocol.http Tier.slow
    ∷ source (codes "https://cdn.jsdelivr.net/gh/databay-labs/free-proxy-list/socks5.txt")
        Protocol.socks5 Tier.slow
    ∷ source
        (codes
          "https://cdn.jsdelivr.net/gh/Anonym0usWork1221/Free-Proxies/proxy_files/http_proxies.txt")
        Protocol.http Tier.slow
    ∷ source
        (codes
          "https://cdn.jsdelivr.net/gh/Anonym0usWork1221/Free-Proxies/proxy_files/socks5_proxies.txt")
        Protocol.socks5 Tier.slow
    ∷ source
        (codes
          "https://cdn.jsdelivr.net/gh/Anonym0usWork1221/Free-Proxies/proxy_files/socks4_proxies.txt")
        Protocol.socks5 Tier.slow
    ∷ source (codes "https://cdn.jsdelivr.net/gh/ALIILAPRO/Proxy/http.txt") Protocol.http Tier.slow
    ∷ source (codes "https://cdn.jsdelivr.net/gh/ALIILAPRO/Proxy/socks4.txt") Protocol.socks5
        Tier.slow
    ∷ source (codes "https://cdn.jsdelivr.net/gh/vakhov/fresh-proxy-list/http.txt") Protocol.http
        Tier.slow
    ∷ source (codes "https://cdn.jsdelivr.net/gh/vakhov/fresh-proxy-list/socks5.txt")
        Protocol.socks5 Tier.slow
    ∷ source (codes "https://cdn.jsdelivr.net/gh/vakhov/fresh-proxy-list/socks4.txt")
        Protocol.socks5 Tier.slow
    ∷ source (codes "https://cdn.jsdelivr.net/gh/Zaeem20/FREE_PROXIES_LIST/http.txt") Protocol.http
        Tier.slow
    ∷ source (codes "https://cdn.jsdelivr.net/gh/hookzof/socks5_list/proxy.txt") Protocol.socks5
        Tier.slow
    ∷ source (codes "https://cdn.jsdelivr.net/gh/proxy4parsing/proxy-list/http.txt") Protocol.http
        Tier.slow
    ∷ source (codes "https://cdn.jsdelivr.net/gh/proxy4parsing/proxy-list/socks5.txt")
        Protocol.socks5 Tier.slow
    ∷ source (codes "https://raw.githubusercontent.com/roosterkid/openproxylist/main/HTTPS_RAW.txt")
        Protocol.http Tier.slow
    ∷ source
        (codes "https://raw.githubusercontent.com/roosterkid/openproxylist/main/SOCKS5_RAW.txt")
        Protocol.socks5 Tier.slow
    ∷ source (codes "https://raw.githubusercontent.com/Tianndev/free-proxy/main/proxy/http.txt")
        Protocol.http Tier.slow
    ∷ source (codes "https://raw.githubusercontent.com/Tianndev/free-proxy/main/proxy/socks5.txt")
        Protocol.socks5 Tier.slow
    ∷ source
        (codes "https://raw.githubusercontent.com/iplocate/free-proxy-list/main/protocols/http.txt")
        Protocol.http Tier.slow
    ∷ source
        (codes
          "https://raw.githubusercontent.com/iplocate/free-proxy-list/main/protocols/socks5.txt")
        Protocol.socks5 Tier.slow
    ∷ source
        (codes "https://raw.githubusercontent.com/proxmint/free-proxy-list/main/proxies/http.txt")
        Protocol.http Tier.slow
    ∷ source
        (codes "https://raw.githubusercontent.com/proxmint/free-proxy-list/main/proxies/socks5.txt")
        Protocol.socks5 Tier.slow
    ∷ source (codes "https://raw.githubusercontent.com/Ian-Lusule/Proxies/main/proxies/http.txt")
        Protocol.http Tier.slow
    ∷ source (codes "https://raw.githubusercontent.com/Ian-Lusule/Proxies/main/proxies/socks5.txt")
        Protocol.socks5 Tier.slow
    ∷ source (codes "http://openproxylist.xyz/http.txt") Protocol.http Tier.slow
    ∷ source (codes "http://openproxylist.xyz/socks5.txt") Protocol.socks5 Tier.slow
    ∷ source
        (codes
          "https://api.proxyscrape.com/v2/?request=displayproxies&protocol=http&timeout=10000&country=all")
        Protocol.http Tier.slow
    ∷ source
        (codes
          "https://api.proxyscrape.com/v2/?request=displayproxies&protocol=socks5&timeout=10000&country=all")
        Protocol.socks5 Tier.slow
    ∷ []

abbrev is_fast : FreeSource → Bool
is_fast s = elim s.tier [ Tier.fast ↦ true | Tier.slow ↦ false ]

unfoldable pub select_sources : PoolState → List FreeSource
unfolding free_sources keep
select_sources PoolState.emergency = free_sources
select_sources PoolState.healthy = []
select_sources _ = keep is_fast free_sources
