-- ===== src/Vm/Contract/Runs.antt =====
-- The loop of `vm_execute`.
use basset_lang.Host.{Host}
use basset_lang.Vm.State.{Vm}
