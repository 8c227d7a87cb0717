-- ===== src/LogFmt/Attrs.antt =====
-- The attributes of a handler of logfmt/handler.go.
use contract_review_ai_agent.Common.{ℤ, String, ◌<>◌, ◌≡◌, refl, ap, sym, ◌∙◌, List, [], ◌∷◌, ◌++◌}
use contract_review_ai_agent.LogFmt.{
  Attr, LogRecord, Handler, write_attrs, enabled, handle, with_attrs, level_prefix,
}

write_attrs-append :
    (b : String) (attrs bttrs : List Attr)
    → write_attrs b (attrs ++ bttrs) ≡ write_attrs (write_attrs b attrs) bttrs
unfolding write_attrs
write_attrs-append b [] bttrs = refl
write_attrs-append b (a ∷ attrs) bttrs =
    write_attrs-append (b <> "   " <> a.key <> "=" <> a.value) attrs bttrs

-- A line through a handler that was given attributes is the line of the first handler with these in
-- front of the record's own, and both take the same levels.
pub handle-with_attrs :
    {W : Type 0} (h : Handler W) (attrs : List Attr) (r : LogRecord) (level : ℤ) (w : W)
    → (handle (with_attrs attrs h) r w ≡ handle h (record r { attrs = attrs ++ r.attrs }) w)
      × (enabled (with_attrs attrs h) level ≡ enabled h level)
unfolding handle with_attrs enabled
handle-with_attrs h attrs r level w = (
  ap (λ t. h.write (t <> "\n") w)
      (ap (λ t. write_attrs t r.attrs)
          (write_attrs-append (level_prefix r.level <> r.message) h.pre_attrs attrs)
        ∙ sym (
            write_attrs-append (write_attrs (level_prefix r.level <> r.message) h.pre_attrs) attrs
              r.attrs)),
  refl,
)
