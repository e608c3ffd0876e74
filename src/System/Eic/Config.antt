-- ===== src/System/Eic/Config.antt =====
-- The channels that `sam_EICConfigExt` can configure.
use samlibs.Base.{
  ℕ, ◌<◌, Bool, true, false, if◌then◌else◌, ltb, none, some, ◌≡◌, refl, lt→ltb, ltb→lt,
}
use samlibs.System.Eic.{Eic, config_ext}

if_some : (b : Bool) (x : Eic) → b ≡ true → (e' : Eic) × ((if b then some x else none) ≡ some e')
if_some b x h = (x, rw (h))

if_some_inverse : (b : Bool) (x e' : Eic) → (if b then some x else none) ≡ some e' → b ≡ true
if_some_inverse true x e' h = refl
if_some_inverse false x e' h = cc

pub config_ext_below :
    (channel : ℕ) (debounce filter : Bool) (sense : ℕ) (e : Eic)
    → channel < 8
    → (e' : Eic) × (config_ext channel debounce filter sense e ≡ some e')
unfolding config_ext
config_ext_below channel debounce filter sense e h = if_some (ltb channel 8) _ (lt→ltb channel 8 h)

pub config_ext_inverse :
    (channel : ℕ) (debounce filter : Bool) (sense : ℕ) (e e' : Eic)
    → config_ext channel debounce filter sense e ≡ some e'
    → channel < 8
unfolding config_ext
config_ext_inverse channel debounce filter sense e e' h =
    ltb→lt channel 8 (if_some_inverse (ltb channel 8) _ e' h)
