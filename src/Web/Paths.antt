-- ===== src/Web/Paths.antt =====
-- The paths of extensions/web_preview/gateway/src/web_server.cpp: from the URL of a request to a file
-- under the static root. `std::strtol` with base 16 is an argument: the `char` of the number that
-- two characters are, if they are one as a whole.
use camera_subsystem.Prelude.{
  ℕ, zero, suc, ◌-◌, Bool, false, ◌&&◌, ◌||◌, Option, none, some, [], ◌∷◌, ◌++◌, leb, ◌==◌,
  if◌then◌else◌, length, Bytes, codes, is_empty, bytes_eq, nat_eq, ◌=?◌,
}

abbrev pub escaped : Option ℕ → ℕ → Bytes → Bytes → Bytes
escaped none c skip stay = c ∷ stay
escaped (some value) c skip stay = value ∷ skip

-- An escape needs two characters after the percent sign.
unfoldable pub url_decode_path : (Bytes → Option ℕ) → Bytes → Bytes
url_decode_path hex [] = []
url_decode_path hex (c ∷ []) = c ∷ []
url_decode_path hex (c ∷ a ∷ []) = c ∷ a ∷ []
url_decode_path hex (c ∷ a ∷ b ∷ rest) =
    let skip = url_decode_path hex rest in
    let stay = url_decode_path hex (a ∷ b ∷ rest) in
    if c == 37 then escaped (hex (a ∷ b ∷ [])) c skip stay else c ∷ stay

abbrev pub before_query : Bytes → Bytes
before_query [] = []
before_query (c ∷ cs) = let rest = before_query cs in if c == 63 then [] else c ∷ rest

-- Whether `find("..")` finds something.
abbrev pub has_dots : Bytes → Bool
has_dots [] = false
has_dots (a ∷ []) = false
has_dots (a ∷ b ∷ rest) = (a == 46 && b == 46) || has_dots (b ∷ rest)

abbrev pub or_index : Bytes → Bytes
or_index path = if is_empty path || path =? codes "/" then codes "/index.html" else path

unfoldable pub resolve_path : (Bytes → Option ℕ) → Bytes → Bytes → Bytes
resolve_path hex static_root url =
    let path = or_index (url_decode_path hex (before_query url)) in
    if has_dots path then [] else static_root ++ path

abbrev pub drop : ℕ → Bytes → Bytes
drop zero s = s
drop (suc n) [] = []
drop (suc n) (c ∷ cs) = drop n cs

abbrev pub ends_with : Bytes → Bytes → Bool
ends_with s ending = leb (length ending) (length s) && drop (length s - length ending) s =? ending

unfoldable pub content_type_for_path : Bytes → Bytes
content_type_for_path path =
    if ends_with path (codes ".html")
    then codes "text/html"
    else (if ends_with path (codes ".js")
        then codes "application/javascript"
        else (if ends_with path (codes ".css")
            then codes "text/css"
            else (if ends_with path (codes ".svg")
                then codes "image/svg+xml"
                else (if ends_with path (codes ".png")
                    then codes "image/png"
                    else codes "application/octet-stream"))))
