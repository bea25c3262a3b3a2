-- ===== src/Link/Verdict.antt =====
-- link.py: which received characters reset a link.
use cocotbext_spacewire.LinkFsm.{State}
use cocotbext_spacewire.Link.State.{Link}
