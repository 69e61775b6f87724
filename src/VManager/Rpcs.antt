-- ===== src/VManager/Rpcs.antt =====
-- The six RPCs of vmanager/vmanagement.cpp by name, as vmanager/main.cpp registers them.
use blobseer.Rpc.{Buffer, Outcome}
use blobseer.VManager.{Codecs, Manager, get_root, clone, get_ticket, publish, create, get_objcount}
use blobseer.Prelude.{List}

pub data Request : Type 0 where
  get_root_rpc clone_rpc get_ticket_rpc publish_rpc create_rpc get_objcount_rpc : Request

unfoldable pub dispatch : Codecs → Request → Manager → List Buffer → List Buffer → Outcome Manager
dispatch c get_root_rpc = get_root c
dispatch c clone_rpc = clone c
dispatch c get_ticket_rpc = get_ticket c
dispatch c publish_rpc = publish c
dispatch c create_rpc = create c
dispatch c get_objcount_rpc = get_objcount c
