-- ===== src/Storage/Texts/Tests.antt =====
-- Texts that are cut and escaped, and a witness for each property.
use packet_lab.Prelude.{◌≡◌, refl, List, [], ◌∷◌, ◌++◌, map, bytes}
use packet_lab.Storage.Texts.{back, cut_rune, truncate_str, replace_all, escape_like}
use packet_lab.Storage.Texts.Runes.{Rune, flat, fit}
use packet_lab.Storage.Texts.Fits.{truncate_str-fit}
use packet_lab.Storage.Texts.Like.{literal, read_pattern, read_pattern-escape_like}

-- an accented letter, a sign of three bytes and a pictogram
abbrev runes : List Rune
runes =
    record { lead = 195; more = 169 ∷ []; sized = refl; continued = (refl, tt) }
    ∷ record { lead = 226; more = 130 ∷ 172 ∷ []; sized = refl; continued = (refl, (refl, tt)) }
    ∷ record {
      lead = 240;
      more = 159 ∷ 152 ∷ 128 ∷ [];
      sized = refl;
      continued = (refl, (refl, (refl, tt)));
    }
    ∷ []

inside : truncate_str (flat runes) 8 ≡ 195 ∷ 169 ∷ 226 ∷ 130 ∷ 172 ∷ []
unfolding truncate_str back cut_rune
inside = refl

truncate_str-fit_example : truncate_str (flat runes) 4 ≡ flat (fit 4 runes)
truncate_str-fit_example = truncate_str-fit runes 4

escaped_text : escape_like (bytes "a_100%") ≡ bytes "a\\_100\\%"
unfolding escape_like replace_all
escaped_text = refl

read_pattern-escape_like_example :
    read_pattern (escape_like (bytes "5%") ++ bytes "%")
    ≡ map literal (bytes "5%") ++ read_pattern (bytes "%")
read_pattern-escape_like_example = read_pattern-escape_like (bytes "5%") (bytes "%")
