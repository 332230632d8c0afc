-- ===== src/Storage/Posix.antt =====
-- Node's `path.posix`, as far as the program calls it: `normalize`, `join` of relative parts and
-- `resolve` of a relative path against an absolute one. On the supported servers `path` is
-- `path.posix`, and `path.sep` is the slash.
use evukb.Common.{ℕ, List, [], ◌∷◌, ◌++◌, Bool, true, false, not, ◌||◌, if◌then◌else◌}
use evukb.Common.Text.{Text, codes, text_eq, starts_with, ends_with, split, join}
use mathlib.Core.List.{reverse}

abbrev pub slash : ℕ
slash = b'/'

abbrev pub dot : Text
dot = codes "."

abbrev pub dotdot : Text
dotdot = codes ".."

-- The part of `normalizeString` for a "..": it takes a segment off, unless that is a ".." itself
-- or none is left; then it is kept if the path may climb above its start.
unfoldable pub climb : Bool → List Text → List Text
climb above [] = if above then dotdot ∷ [] else []
climb above (top ∷ rest) =
    if text_eq top dotdot then (if above then dotdot ∷ top ∷ rest else top ∷ rest) else rest

-- One segment of `normalizeString`; the stack has its top at the head.
unfoldable pub norm_step : Bool → List Text → Text → List Text
norm_step above stack seg =
    if text_eq seg [] || text_eq seg dot
    then stack
    else if text_eq seg dotdot
    then climb above stack
    else seg ∷ stack

unfoldable pub norm_segments : Bool → List Text → List Text → List Text
norm_segments above stack [] = stack
norm_segments above stack (seg ∷ segs) = norm_segments above (norm_step above stack seg) segs

abbrev pub is_absolute : Text → Bool
is_absolute t = starts_with (slash ∷ []) t

abbrev pub closing_slash : Bool → Text
closing_slash trailing = if trailing then slash ∷ [] else []

-- The end of `normalize`, once the segments are known.
unfoldable pub normalized_text : Bool → Bool → List Text → Text
normalized_text true trailing [] = slash ∷ []
normalized_text false trailing [] = if trailing then codes "./" else dot
normalized_text true trailing (s ∷ ss) = slash ∷ join slash (s ∷ ss) ++ closing_slash trailing
normalized_text false trailing (s ∷ ss) = join slash (s ∷ ss) ++ closing_slash trailing

-- path.posix.normalize(t)
unfoldable pub normalize : Text → Text
unfolding norm_segments norm_step climb normalized_text
normalize [] = dot
normalize (c ∷ t) =
    let absolute = is_absolute (c ∷ t) in
    normalized_text absolute (ends_with (slash ∷ []) (c ∷ t))
      (reverse (norm_segments (not absolute) [] (split slash (c ∷ t))))
