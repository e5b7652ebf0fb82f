-- ===== src/Http/Redirect.antt =====
-- What `ValidateRedirect` lets pass.
use omni_stats.Prelude.{◌≡◌, sym, subst, ◌⊎◌, Bool, true, false, ◌&&◌, arith}
use omni_stats.Prelude.Text.{Text, codes, text_eq, text_eq_iff}
use omni_stats.Prelude.Int.{eq_of_parts}
use omni_stats.Http.{
  ParsedUrl, parse_url, effective_port, is_same_origin, is_allowed_sensitive_url, is_loopback_host,
  resolve_redirect_url, validate_redirect, judge_redirect,
}

-- What `judge_redirect` promises of the addresses that it lets pass.
abbrev pub IsSafeStep : ParsedUrl → ParsedUrl → Bool → Type 0
IsSafeStep current target is_sensitive =
    (target.valid ≡ true)
    × (current.valid
          && text_eq current.scheme (codes "https")
          && text_eq target.scheme (codes "http")
        ≡ false)
    × ((is_sensitive ≡ false)
        ⊎ ((current.valid ≡ true)
            × (target.scheme ≡ current.scheme)
            × (target.host ≡ current.host)
            × (effective_port target ≡ effective_port current)
            × ((target.scheme ≡ codes "https")
                ⊎ ((target.scheme ≡ codes "http") × (is_loopback_host target.host ≡ true)))))

sensitive-scheme :
    (url : ParsedUrl)
    → (is_allowed_sensitive_url url).0 ≡ true
    → (url.scheme ≡ codes "https")
      ⊎ ((url.scheme ≡ codes "http") × (is_loopback_host url.host ≡ true))
unfolding is_allowed_sensitive_url
sensitive-scheme url h =
    ground (arith, text_eq_iff url.scheme (codes "https"), text_eq_iff url.scheme (codes "http"))

same_origin-parts :
    (a b : ParsedUrl)
    → is_same_origin a b ≡ true
    → (a.valid ≡ true)
      × (b.scheme ≡ a.scheme)
      × (b.host ≡ a.host)
      × (effective_port b ≡ effective_port a)
unfolding is_same_origin
same_origin-parts a b h = ground (
  arith,
  text_eq_iff a.scheme b.scheme,
  text_eq_iff a.host b.host,
  eq_of_parts (effective_port b) (effective_port a),
)

judged :
    (current target : ParsedUrl) (url : Text) (is_sensitive : Bool)
    → (judge_redirect current target url is_sensitive).allowed ≡ true
    → IsSafeStep current target is_sensitive
      × ((judge_redirect current target url is_sensitive).resolved_url ≡ url)
unfolding judge_redirect
judged c t url s h = ground (arith, same_origin-parts c t, sensitive-scheme t)

-- A redirect that `ValidateRedirect` allows goes to the resolved location, which is a valid address
-- and no step from https to http. For a sensitive request it stays within the origin of the current
-- address, which is valid too: same scheme, host and effective port; and it goes by https, or by http
-- to a host that counts as the local machine.
pub validate_redirect_lem :
    (current_url location : Text) (is_sensitive : Bool)
    → (validate_redirect current_url location is_sensitive).allowed ≡ true
    → let result = validate_redirect current_url location is_sensitive in
      (result.resolved_url ≡ resolve_redirect_url current_url location)
      × IsSafeStep (parse_url current_url) (parse_url result.resolved_url) is_sensitive
unfolding validate_redirect
validate_redirect_lem cur loc s h =
    let url = resolve_redirect_url cur loc in
    let j = judged (parse_url cur) (parse_url url) url s h in
    (j.1, subst (λ u. IsSafeStep (parse_url cur) (parse_url u) s) (sym j.1) j.0)
