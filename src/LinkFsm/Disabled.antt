-- ===== src/LinkFsm/Disabled.antt =====
-- link_fsm.py: a link that is disabled on its way to Run.
use cocotbext_spacewire.Base.{◌≡◌, ◌∙◌, true, List, [], ◌∷◌, ◌++◌, All, All-append, arith}
use mathlib.Core.List.{Memᴰ}
use cocotbext_spacewire.LinkFsm.{
  started, run, Event, got_null, got_fct, sent_null, sent_fct, link_disable, LinkFsm, update_flags,
  enter, handler, feed,
}
use cocotbext_spacewire.LinkFsm.Feed.{feed-eq-after, feed-IsSettled}
use cocotbext_spacewire.LinkFsm.Traces.{feed_all}
use cocotbext_spacewire.LinkFsm.Handshake.{
  In, next, IsNullEvent, IsHandshakeEvent, exchanges_complete,
}

keeps_disable :
    (e : Event) (f : LinkFsm) → IsHandshakeEvent e → (next e f).is_link_disable ≡ f.is_link_disable
unfolding update_flags handler enter
keeps_disable e f k = ground arith

feed_all-keeps_disable :
    (es : List Event) (f : LinkFsm)
    → All IsHandshakeEvent es
    → f.is_link_disable ≡ true
    → (feed_all es f).is_link_disable ≡ true
unfolding feed_all
feed_all-keeps_disable [] f ok d = d
feed_all-keeps_disable (e ∷ es) f ok d =
    feed_all-keeps_disable es (feed e f) ok.1 (rw (feed-eq-after e f) (keeps_disable e f ok.0 ∙ d))

disable-started :
    (f : LinkFsm)
    → In started f
    → ((next link_disable f).state ≡ started) × ((next link_disable f).is_link_disable ≡ true)
unfolding update_flags handler enter
disable-started f h = ground arith

-- LINK_DISABLE in a settled machine in Started does not hold the link back: NULLs sent and received,
-- then FCTs and NULLs sent and received, each of the four at least once, still lead to Run, and the
-- link runs while it is disabled.
pub disabled_link_runs :
    (ns fs : List Event) (f : LinkFsm)
    → In started f
    → All IsNullEvent ns
    → Memᴰ sent_null ns
    → Memᴰ got_null ns
    → All IsHandshakeEvent fs
    → Memᴰ sent_fct fs
    → Memᴰ got_fct fs
    → ((feed_all (link_disable ∷ ns ++ fs) f).state ≡ run)
      × ((feed_all (link_disable ∷ ns ++ fs) f).is_link_disable ≡ true)
unfolding feed_all
disabled_link_runs ns fs f h an sn gn af sf gf =
    let g = feed link_disable f in
    let (s', d') = disable-started f h in
    let at : In started g =
      (rw (feed-eq-after link_disable f) s', (feed-IsSettled link_disable f 0).0) in
    (
      exchanges_complete ns fs g at an sn gn af sf gf,
      feed_all-keeps_disable (ns ++ fs) g (All-append IsHandshakeEvent ns fs (All-null ns an) af)
          (rw (feed-eq-after link_disable f) d'),
    )
  where
    All-null : (es : List Event) → All IsNullEvent es → All IsHandshakeEvent es
    All-null [] a = tt
    All-null (e ∷ es) a = (ground arith, All-null es a.1)
