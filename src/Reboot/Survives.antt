-- ===== src/Reboot/Survives.antt =====
-- scripts/verify_reboot_survival.py: how a run ends, and what its evidence log rests on.
use atlasmirror.Json.{Json}
use atlasmirror.Host.{Host}
use atlasmirror.Reboot.Story.{Story}
