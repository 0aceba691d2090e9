-- ===== src/Bridge/Refusals.antt =====
-- packages/plugin/src/ip-pool-settings/bridge.ts: requests that the bridge refuses.
use dsh_opencode.Base.{
  ◌≡◌, refl, sym, ap, ◌∙◌, ◌≢◌, inl, inr, true, false, Text, Option, none, some, arith, same,
  Bool-cases, Option-cases,
}
use dsh_opencode.Subscription.Losses.{same_eq}
use dsh_opencode.Bridge.Trust.{
  Header, one, many, Request, PageUrl, lowered, header_text, parse_authority,
  is_same_origin_request, is_loopback_hostname, is_trusted_host, is_trusted_header,
  is_loopback_address, is_trusted_bridge_request,
}

false_ne_true : false ≢ true
false_ne_true e = cc

module _ (parse_url : Text → Option PageUrl) where
  other_origin :
      (request : Request) (host : Text) (origin : Header) (page : PageUrl) (url : Option PageUrl)
      → request.origin ≡ some origin
      → parse_url (header_text origin) ≡ some page
      → lowered page.host ≢ lowered host
      → is_trusted_host parse_url request host url ≡ false
  unfolding is_same_origin_request
  other_origin request host origin page none from reads apart = refl
  other_origin request host origin page (some url) from reads apart =
      elim (Bool-cases (is_trusted_host parse_url request host (some url))) [
        | inr e ↦ e
        | inl e ↦
            let own : same page.host url.host ≡ true = ground (arith, e, from, reads) in
            let named : same (lowered url.host) (lowered host) ≡ true = ground (arith, e) in
            absurd (
              apart (
                ap lowered (same_eq page.host url.host own)
                ∙ same_eq (lowered url.host) (lowered host) named))
      ]

  -- Whatever else it carries, a request is refused whose origin is a page at another host than the
  -- one that its Host header names.
  pub is_trusted_bridge_request-origin :
      (request : Request) (host : Text) (origin : Header) (page : PageUrl)
      → request.host ≡ some (one host)
      → request.origin ≡ some origin
      → parse_url (header_text origin) ≡ some page
      → lowered page.host ≢ lowered host
      → is_trusted_bridge_request parse_url request ≡ false
  unfolding is_trusted_bridge_request
  is_trusted_bridge_request-origin request host origin page to from reads apart = ground (
    arith,
    to,
    other_origin request host origin page (parse_authority parse_url host) from reads apart,
  )

  named_host :
      (request : Request) (header : Option Header)
      → is_trusted_header parse_url request header ≡ true
      → (host : Text) × (url : PageUrl) × (header ≡ some (one host))
        × (parse_authority parse_url host ≡ some url)
        × (is_loopback_hostname url.hostname ≡ true)
  named_host request none e = absurd (cc)
  named_host request (some (many hs)) e = absurd (cc)
  named_host request (some (one host)) e = elim (Option-cases (parse_authority parse_url host)) [
    | inl r ↦ absurd (false_ne_true (sym (ap (is_trusted_host parse_url request host) r) ∙ e))
    | inr (url, r) ↦
        let checked : is_trusted_host parse_url request host (some url) ≡ true =
          sym (ap (is_trusted_host parse_url request host) r) ∙ e in
        (host, url, refl, r, ground (arith, checked))
  ]

  -- A request is answered only from a loopback socket and with a Host header that names a loopback
  -- host.
  pub is_trusted_bridge_request-loopback :
      (request : Request)
      → is_trusted_bridge_request parse_url request ≡ true
      → (is_loopback_address request.remote_address ≡ true)
        × ((host : Text) × (url : PageUrl) × (request.host ≡ some (one host))
            × (parse_authority parse_url host ≡ some url)
            × (is_loopback_hostname url.hostname ≡ true))
  unfolding is_trusted_bridge_request
  is_trusted_bridge_request-loopback request trusted =
      (ground (arith, trusted), named_host request request.host (ground (arith, trusted)))
