-- ===== src/Hpack/Static.antt =====
-- internal/hpack/static.go: the static table, and the index of the names in it.
use zerodeps_hackk.Base.{ℕ, suc, false, eq_octets, if◌then◌else◌, List, [], ◌∷◌}
use zerodeps_hackk.Base.Text.{codes}
use zerodeps_hackk.H2.{Field}
use Prim.Native.String.{String}

entry : String → String → Field
entry name value = record { name = codes name; value = codes value; sensitive = false }

unfoldable pub static_table : List Field
unfolding entry
static_table =
    entry ":authority" ""
    ∷ entry ":method" "GET"
    ∷ entry ":method" "POST"
    ∷ entry ":path" "/"
    ∷ entry ":path" "/index.html"
    ∷ entry ":scheme" "http"
    ∷ entry ":scheme" "https"
    ∷ entry ":status" "200"
    ∷ entry ":status" "204"
    ∷ entry ":status" "206"
    ∷ entry ":status" "304"
    ∷ entry ":status" "400"
    ∷ entry ":status" "404"
    ∷ entry ":status" "500"
    ∷ entry "accept-charset" ""
    ∷ entry "accept-encoding" "gzip, deflate"
    ∷ entry "accept-language" ""
    ∷ entry "accept-ranges" ""
    ∷ entry "accept" ""
    ∷ entry "access-control-allow-origin" ""
    ∷ entry "age" ""
    ∷ entry "allow" ""
    ∷ entry "authorization" ""
    ∷ entry "cache-control" ""
    ∷ entry "content-disposition" ""
    ∷ entry "content-encoding" ""
    ∷ entry "content-language" ""
    ∷ entry "content-length" ""
    ∷ entry "content-location" ""
    ∷ entry "content-range" ""
    ∷ entry "content-type" ""
    ∷ entry "cookie" ""
    ∷ entry "date" ""
    ∷ entry "etag" ""
    ∷ entry "expect" ""
    ∷ entry "expires" ""
    ∷ entry "from" ""
    ∷ entry "host" ""
    ∷ entry "if-match" ""
    ∷ entry "if-modified-since" ""
    ∷ entry "if-none-match" ""
    ∷ entry "if-range" ""
    ∷ entry "if-unmodified-since" ""
    ∷ entry "last-modified" ""
    ∷ entry "link" ""
    ∷ entry "location" ""
    ∷ entry "max-forwards" ""
    ∷ entry "proxy-authenticate" ""
    ∷ entry "proxy-authorization" ""
    ∷ entry "range" ""
    ∷ entry "referer" ""
    ∷ entry "refresh" ""
    ∷ entry "retry-after" ""
    ∷ entry "server" ""
    ∷ entry "set-cookie" ""
    ∷ entry "strict-transport-security" ""
    ∷ entry "transfer-encoding" ""
    ∷ entry "user-agent" ""
    ∷ entry "vary" ""
    ∷ entry "via" ""
    ∷ entry "www-authenticate" ""
    ∷ []

-- The index from 1 of the first entry of that name behind the `i` entries before; 0 for none.
unfoldable pub name_index_from : List ℕ → List Field → ℕ → ℕ
name_index_from name [] i = 0
name_index_from name (f ∷ fields) i =
    let rest = name_index_from name fields (suc i) in if eq_octets f.name name then suc i else rest

-- `staticNameIndex[name]`, 0 where the map has no such key.
unfoldable pub static_name_index : List ℕ → ℕ
unfolding name_index_from static_table
static_name_index name = name_index_from name static_table 0
