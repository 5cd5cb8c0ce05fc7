-- ===== src/Listing/Prefix.antt =====
-- `ParseContainers` takes a name for a pattern that may match anywhere: what it finds, and what it
-- confuses.
use eris_cli.Base.{
  ℕ, ◌+◌, ◌*◌, ◌<◌, ◌≡◌, ◌≢◌, Bool, ap, some, [], ◌∷◌, ◌++◌, arith, append_assoc, All-append, sym,
  true,
}
use eris_cli.Base.Int.{ℤ, pos}
use eris_cli.Strings.{Text, codes}
use eris_cli.Strings.Decimal.{itoa, itoa_snoc, itoa-cons, itoa-IsNumeral, numeral-Lacks}
use eris_cli.Names.{service_containers_name}
use eris_cli.Docker.{ApiContainer, DockerClient, done}
use eris_cli.Listing.Patterns.{
  IsLine, name_pattern, name_pattern_within, eris_reg_exp_any, eris_reg_exp_lem,
}
use eris_cli.Listing.{find_matching, listed, parse_containers}

itoa-IsLine : (z : ℤ) → IsLine (itoa z)
itoa-IsLine z = numeral-Lacks 10 (itoa z) (ground arith) (itoa-IsNumeral z)

-- The name of container `10 * n + d` is that of container `n` and one more digit.
service_containers_name_digit :
    (name : Text) (n d : ℕ)
    → 0 < n
    → d < 10
    → service_containers_name name (pos (n * 10 + d))
      ≡ service_containers_name name (pos n) ++ (b'0' + d) ∷ []
unfolding service_containers_name
service_containers_name_digit name n d hn hd =
    rw (itoa_snoc n d hn hd)
      (ap (λ t. codes "eris_service_" ++ t) (sym (append_assoc name (b'_' ∷ itoa (pos n)) _)))

service_containers_name-IsLine :
    (name : Text) (number : ℤ) → IsLine name → IsLine (service_containers_name name number)
unfolding service_containers_name
service_containers_name-IsLine name number h =
    All-append _ (codes "eris_service_") _ (omega arith)
      (All-append _ name _ h ((omega arith), itoa-IsLine number))

name_pattern_digit :
    (name : Text) (n d : ℕ)
    → IsLine name
    → 0 < n
    → d < 10
    → name_pattern
        (service_containers_name name (pos n))
        (codes "/" ++ service_containers_name name (pos (n * 10 + d)))
      ≡ true
name_pattern_digit name n d h hn hd = rw (service_containers_name_digit name n d hn hd) (
    name_pattern_within (codes "/") (service_containers_name name (pos n)) ((b'0' + d) ∷ [])
      (service_containers_name-IsLine name (pos n) h))

eris_reg_exp_any_service :
    (name : Text) (n : ℕ)
    → name ≢ []
    → IsLine name
    → eris_reg_exp_any (codes "/" ++ service_containers_name name (pos n)) ≡ true
unfolding eris_reg_exp_any service_containers_name
eris_reg_exp_any_service name n given line =
    let (d, rest, e, bounds) = itoa-cons n in
    rw e (rw (eris_reg_exp_lem (codes "service") name d rest given line (ground arith)))

-- A daemon that lists only container `10 * n + d` of a service is taken to list container `n`: the
-- name of the one is a prefix of the other's, and the pattern is not anchored.
pub parse_containers_confuses :
    (D : DockerClient) (s : D.State) (name : Text) (n d : ℕ) (all : Bool) (con : ApiContainer)
    → name ≢ []
    → IsLine name
    → 0 < n
    → d < 10
    → D.list_containers all s ≡ done (con ∷ [])
    → con.names ≡ (codes "/" ++ service_containers_name name (pos (n * 10 + d))) ∷ []
    → parse_containers D s (service_containers_name name (pos n)) all ≡ some con
unfolding parse_containers
parse_containers_confuses D s name n d all con given line hn hd listing names =
    rw (listing, listed, names, eris_reg_exp_any_service name (n * 10 + d) given line)
      (rw (name_pattern_digit name n d line hn hd, find_matching))
